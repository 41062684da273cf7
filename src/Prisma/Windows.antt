-- ===== src/Prisma/Windows.antt =====
-- Pages of rows kept in memory that follow one another: a page that holds everything, and one that
-- starts behind a row.
use talkertive_chat_app.Base.{
  ℕ, zero, suc, ◌≤◌, ◌≡◌, refl, ap, Bool, false, not, none, some, List, [], ◌∷◌, ◌++◌, Eq, ◌==◌,
  length, In, All, filter, take, drop_until, In-sort, sort, insert, arith,
}
use talkertive_chat_app.Prisma.Interface.{whole}
use talkertive_chat_app.Prisma.Rows.{rows, rows_where, remove}
use talkertive_chat_app.Prisma.Pages.{page_of}

module _ {A : Type 0} where
  length-insert :
      (before : A → A → Bool) (a : A) (xs : List A) → length (insert before a xs) ≡ suc (length xs)
  length-insert before a [] = refl
  length-insert before a (x ∷ xs) = ground (arith, length-insert before a xs)

  length-sort : (before : A → A → Bool) (xs : List A) → length (sort before xs) ≡ length xs
  length-sort before [] = refl
  length-sort before (x ∷ xs) =
      ground (arith, length-insert before x (sort before xs), length-sort before xs)

  take-all : (n : ℕ) (xs : List A) → length xs ≤ n → take n xs ≡ xs
  take-all zero [] h = refl
  take-all zero (x ∷ xs) h = absurd (omega arith)
  take-all (suc n) [] h = refl
  take-all (suc n) (x ∷ xs) h = ap (λ t. x ∷ t) (take-all n xs (omega arith))

  All-filter : (P : A → Type 0) (q : A → Bool) (xs : List A) → All P xs → All P (filter q xs)
  All-filter P q [] h = tt
  All-filter P q (x ∷ xs) (e, h) = ground (arith, All-filter P q xs h)

module _ {Row Key : Type 0} ⦃e : Eq Key⦄ (key : Row → Key) where
  -- No two rows of the list have one key.
  abbrev Apart : List Row → Type 0
  Apart [] = Unit
  Apart (x ∷ xs) = All (λ y. (key x == key y) ≡ false) xs × Apart xs

  Apart-filter : (q : Row → Bool) (xs : List Row) → Apart xs → Apart (filter q xs)
  Apart-filter q [] h = tt
  Apart-filter q (x ∷ xs) (a, h) =
      ground (arith, Apart-filter q xs h, All-filter (λ y. (key x == key y) ≡ false) q xs a)

  All-remove :
      (x : Row) (xs : List Row) → All (λ y. (key x == key y) ≡ false) (remove key (key x) xs)
  All-remove x [] = tt
  All-remove x (y ∷ ys) =
      ground (arith, All-remove x ys, e.beq_iff (key x) (key y), e.beq_iff (key y) (key x))

  Apart-rows : (t : List Row) → Apart (rows key t)
  Apart-rows [] = tt
  Apart-rows (x ∷ t) = (
    All-remove x (rows key t),
    Apart-filter (λ r. not (key r == key x)) (rows key t) (Apart-rows t),
  )

  All-insert :
      (order : Row → Row → Bool) (x a : Row) (xs : List Row)
      → (key x == key a) ≡ false
      → All (λ y. (key x == key y) ≡ false) xs
      → All (λ y. (key x == key y) ≡ false) (insert order a xs)
  All-insert order x a [] h k = (h, tt)
  All-insert order x a (y ∷ ys) h (j, k) = ground (arith, All-insert order x a ys h k)

  Apart-insert :
      (order : Row → Row → Bool) (a : Row) (xs : List Row)
      → All (λ y. (key a == key y) ≡ false) xs
      → Apart xs
      → Apart (insert order a xs)
  Apart-insert order a [] h k = (tt, tt)
  Apart-insert order a (y ∷ ys) (h, k) (j, l) = ground (
    arith,
    Apart-insert order a ys k l,
    All-insert order y a ys,
    e.beq_iff (key a) (key y),
    e.beq_iff (key y) (key a),
  )

  All-sort :
      (order : Row → Row → Bool) (x : Row) (xs : List Row)
      → All (λ y. (key x == key y) ≡ false) xs
      → All (λ y. (key x == key y) ≡ false) (sort order xs)
  All-sort order x [] h = tt
  All-sort order x (y ∷ ys) (h, k) = All-insert order x y (sort order ys) h (All-sort order x ys k)

  Apart-sort : (order : Row → Row → Bool) (xs : List Row) → Apart xs → Apart (sort order xs)
  Apart-sort order [] h = tt
  Apart-sort order (x ∷ xs) (h, k) =
      Apart-insert order x (sort order xs) (All-sort order x xs h) (Apart-sort order xs k)

  All-append :
      (m x : Row) (xs ys : List Row)
      → All (λ y. (key x == key y) ≡ false) (xs ++ m ∷ ys)
      → (key x == key m) ≡ false
  All-append m x [] ys (h, k) = h
  All-append m x (y ∷ xs) ys (h, k) = All-append m x xs ys k

  drop_until-append :
      (m : Row) (xs ys : List Row)
      → Apart (xs ++ m ∷ ys)
      → drop_until (λ r. key r == key m) (xs ++ m ∷ ys) ≡ m ∷ ys
  drop_until-append m [] ys h = ground (arith, e.beq_iff (key m) (key m))
  drop_until-append m (x ∷ xs) ys (h, k) =
      ground (arith, All-append m x xs ys h, drop_until-append m xs ys k)

  -- The laws of the interface.
  pub In-page_of_fits :
      (order : Row → Row → Bool) (q : Row → Bool) (t : List Row) (n : ℕ) (r : Row)
      → length (rows_where key q t) ≤ n
      → In r (rows_where key q t)
      → In r (page_of key (record { order = order; skip = 0; take = some n; cursor = none }) q t)
  In-page_of_fits order q t n r h i =
      rw
        (take-all n (sort order (rows_where key q t))
          (ground (arith, length-sort order (rows_where key q t))))
        ((In-sort order (rows_where key q t) r).1 i)

  pub page_of_after :
      (order : Row → Row → Bool) (q : Row → Bool) (t : List Row) (n : ℕ) (xs : List Row) (m : Row)
      (ys : List Row)
      → page_of key (whole order) q t ≡ xs ++ m ∷ ys
      → page_of key (record { order = order; skip = 1; take = some n; cursor = some (key m) }) q t
        ≡ take n ys
  page_of_after order q t n xs m ys h =
      let apart =
        Apart-sort order (rows_where key q t) (Apart-filter q (rows key t) (Apart-rows t)) in
      rw (h, drop_until-append m xs ys (rw h at apart)) refl
