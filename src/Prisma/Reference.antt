-- ===== src/Prisma/Reference.antt =====
-- A delegate held in memory: the laws of the interface can be met, and tests can run.
use talkertive_chat_app.Base.{refl, ◌∷◌, Eq, length, not}
use talkertive_chat_app.Prisma.Interface.{Delegate}
use talkertive_chat_app.Prisma.Rows.{
  at, remove, rows_where, modify, vacant, at-key, In-rows_where, vacant-none, count-cons, at-modify,
  count-modify, at-remove, at-rows_where,
}
use talkertive_chat_app.Prisma.Pages.{
  page_of, In-page_of, page_of-IsSorted, length-page_of-le, In-page_of-whole, page_of_first,
}
use talkertive_chat_app.Prisma.Windows.{In-page_of_fits, page_of_after}

module _ {Row Key : Type 0} ⦃e : Eq Key⦄ (key : Row → Key) where
  unfoldable pub reference : Delegate key
  reference = record {
    find_unique = at key;
    find_many = rows_where key;
    count = λ q t. length (rows_where key q t);
    find_page = page_of key;
    admits = vacant key;
    create = λ r t. r ∷ t;
    update = modify key;
    delete = remove key;
    delete_many = λ q t. rows_where key (λ r. not (q r)) t;
    find-key = λ {k} {t} {r} h. at-key key k t r h;
    In-find_many = In-rows_where key;
    count_lem = λ q t. refl;
    In-find_page = In-page_of key;
    find_page-IsSorted = page_of-IsSorted key;
    length-find_page-le = length-page_of-le key;
    In-find_page_whole = In-page_of-whole key;
    find_page_first = page_of_first key;
    In-find_page_fits = In-page_of_fits key;
    find_page_head = λ order q t n strict. refl;
    find_page_after = λ order q t n xs m ys strict h. page_of_after key order q t n xs m ys h;
    find-admits = vacant-none key;
    find-create = λ r t j h. refl;
    count-create = count-cons key;
    find-update = at-modify key;
    count-update = count-modify key;
    find-delete = at-remove key;
    find-delete_many = at-rows_where key;
  }
