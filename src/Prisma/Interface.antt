-- ===== src/Prisma/Interface.antt =====
-- A delegate of the Prisma client, `prisma.<model>`, as an interface. A table's content is a list
-- of rows whose order carries no meaning; `key` is the unique field, or pair of fields, by which
-- the services address a row. The operations are those of the engine once its checks have passed:
-- `admits` is the check of the unique constraints.
use talkertive_chat_app.Base.{
  ℕ, ◌+◌, ◌≡◌, ◌↔◌, Bool, true, Option, none, some, List, Eq, ◌==◌, length, In, bit, ◌≤◌, IsOrder,
  IsSorted, ◌∷◌, [], ◌++◌, take as first_of, if◌then◌else◌,
}

-- What is left of a row that a `deleteMany` with this `where` may have matched.
abbrev pub spared : {Row : Type 0} → (Row → Bool) → Option Row → Option Row
spared q none = none
spared q (some r) = if q r then none else some r

-- The arguments `orderBy`, `skip`, `take` and `cursor` of a `findMany`.
pub record Page (Row Key : Type 0) : Type 0 where
  pub order : Row → Row → Bool
  pub skip : ℕ
  pub take : Option ℕ
  pub cursor : Option Key

-- A page with an order alone is the whole result.
abbrev pub whole : {Row Key : Type 0} → (Row → Row → Bool) → Page Row Key
whole order = record { order = order; skip = 0; take = none; cursor = none }

pub record Delegate {Row Key : Type 0} ⦃e : Eq Key⦄ (key : Row → Key) : Type 0 where
  -- `findUnique({ where })`
  pub find_unique : Key → List Row → Option Row
  -- `findMany({ where })` and `count({ where })`
  pub find_many : (Row → Bool) → List Row → List Row
  pub count : (Row → Bool) → List Row → ℕ
  -- `findMany({ where, orderBy, skip, take, cursor })`
  pub find_page : Page Row Key → (Row → Bool) → List Row → List Row
  -- `create({ data })`
  pub admits : Row → List Row → Bool
  pub create : Row → List Row → List Row
  -- `update({ where, data })`
  pub update : Key → (Row → Row) → List Row → List Row
  -- `delete({ where })` and `deleteMany({ where })`
  pub delete : Key → List Row → List Row
  pub delete_many : (Row → Bool) → List Row → List Row
  -- A row is found by its own key.
  pub find-key : {k : Key} {t : List Row} {r : Row} → find_unique k t ≡ some r → key r ≡ k
  -- A query without an order gives the rows that meet its condition, in some order.
  pub In-find_many :
      (q : Row → Bool) (t : List Row) (r : Row)
      → In r (find_many q t) ↔ ((find_unique (key r) t ≡ some r) × (q r ≡ true))
  pub count_lem : (q : Row → Bool) (t : List Row) → count q t ≡ length (find_many q t)
  -- A page holds rows of the query, in its order, and no more than `take`.
  pub In-find_page :
      (a : Page Row Key) (q : Row → Bool) (t : List Row) (r : Row)
      → In r (find_page a q t)
      → In r (find_many q t)
  pub find_page-IsSorted :
      (a : Page Row Key) (q : Row → Bool) (t : List Row)
      → IsOrder a.order
      → IsSorted a.order (find_page a q t)
  pub length-find_page-le :
      (a : Page Row Key) (q : Row → Bool) (t : List Row) (n : ℕ)
      → a.take ≡ some n
      → length (find_page a q t) ≤ n
  pub In-find_page_whole :
      (order : Row → Row → Bool) (q : Row → Bool) (t : List Row) (r : Row)
      → In r (find_many q t)
      → In r (find_page (whole order) q t)
  pub find_page_first :
      (order : Row → Row → Bool) (q : Row → Bool) (t : List Row) (x : Row) (xs : List Row)
      → find_page (whole order) q t ≡ x ∷ xs
      → find_page (record { order = order; skip = 0; take = some 1; cursor = none }) q t ≡ x ∷ []
  -- A page of `take` rows holds the whole of a result that is no longer.
  pub In-find_page_fits :
      (order : Row → Row → Bool) (q : Row → Bool) (t : List Row) (n : ℕ) (r : Row)
      → count q t ≤ n
      → In r (find_many q t)
      → In r (find_page (record { order = order; skip = 0; take = some n; cursor = none }) q t)
  -- Where the order leaves no two rows of the result level, two queries agree: a page is the head
  -- of the result, and one with `cursor` and `skip: 1` goes on behind the cursor's row.
  pub find_page_head :
      (order : Row → Row → Bool) (q : Row → Bool) (t : List Row) (n : ℕ)
      → ((r s : Row)
          → In r (find_many q t)
          → In s (find_many q t)
          → order r s ≡ true
          → order s r ≡ true
          → r ≡ s)
      → find_page (record { order = order; skip = 0; take = some n; cursor = none }) q t
        ≡ first_of n (find_page (whole order) q t)
  pub find_page_after :
      (order : Row → Row → Bool) (q : Row → Bool) (t : List Row) (n : ℕ) (xs : List Row) (m : Row)
      (ys : List Row)
      → ((r s : Row)
          → In r (find_many q t)
          → In s (find_many q t)
          → order r s ≡ true
          → order s r ≡ true
          → r ≡ s)
      → find_page (whole order) q t ≡ xs ++ m ∷ ys
      → find_page (record { order = order; skip = 1; take = some n; cursor = some (key m) }) q t
        ≡ first_of n ys
  -- A row is not admitted where its key is taken.
  pub find-admits : (r : Row) (t : List Row) → admits r t ≡ true → find_unique (key r) t ≡ none
  pub find-create :
      (r : Row) (t : List Row) (j : Key)
      → admits r t ≡ true
      → find_unique j (create r t) ≡ (if key r == j then some r else find_unique j t)
  pub count-create :
      (q : Row → Bool) (r : Row) (t : List Row)
      → admits r t ≡ true
      → count q (create r t) ≡ count q t + bit (q r)
  -- An update rewrites the row that it addresses and no other.
  pub find-update :
      (k : Key) (f : Row → Row) (t : List Row) (j : Key) (r : Row)
      → find_unique k t ≡ some r
      → key (f r) ≡ k
      → find_unique j (update k f t) ≡ (if k == j then some (f r) else find_unique j t)
  pub count-update :
      (q : Row → Bool) (k : Key) (f : Row → Row) (t : List Row) (r : Row)
      → find_unique k t ≡ some r
      → key (f r) ≡ k
      → count q (update k f t) + bit (q r) ≡ count q t + bit (q (f r))
  pub find-delete :
      (k : Key) (t : List Row) (j : Key)
      → find_unique j (delete k t) ≡ (if k == j then none else find_unique j t)
  pub find-delete_many :
      (q : Row → Bool) (t : List Row) (j : Key)
      → find_unique j (delete_many q t) ≡ spared q (find_unique j t)
