-- ===== src/Prisma/Rows.antt =====
-- Rows kept in memory: of several rows with one key the first is found, and the others do not count.
use talkertive_chat_app.Base.{
  ◌+◌, ◌≡◌, refl, ◌↔◌, ◌≢◌, Bool, true, false, not, Option, none, some, List, [], ◌∷◌, Eq, ◌==◌,
  length, In, In-filter, filter, find, bit, if◌then◌else◌, arith, ◌∙◌,
}
use talkertive_chat_app.Prisma.Interface.{spared}

module _ {Row Key : Type 0} ⦃e : Eq Key⦄ (key : Row → Key) where
  abbrev pub at : Key → List Row → Option Row
  at k = find (λ r. key r == k)

  abbrev pub remove : Key → List Row → List Row
  remove k = filter (λ r. not (key r == k))

  -- The rows that can be found: of several with one key, the first.
  abbrev pub rows : List Row → List Row
  rows [] = []
  rows (x ∷ t) = x ∷ remove (key x) (rows t)

  abbrev pub modify : Key → (Row → Row) → List Row → List Row
  modify k f [] = []
  modify k f (x ∷ t) = if key x == k then f x ∷ t else x ∷ modify k f t

  pub at-key : (k : Key) (t : List Row) (r : Row) → at k t ≡ some r → key r ≡ k
  at-key k [] r h = cc
  at-key k (x ∷ t) r h = ground (arith, at-key k t r, e.beq_iff (key x) k)

  pub at-remove :
      (k : Key) (t : List Row) (j : Key) → at j (remove k t) ≡ (if k == j then none else at j t)
  at-remove k [] j = ground arith
  at-remove k (x ∷ t) j =
      ground (arith, at-remove k t j, e.beq_iff (key x) k, e.beq_iff (key x) j, e.beq_iff k j)

  at-rows : (j : Key) (t : List Row) → at j (rows t) ≡ at j t
  at-rows j [] = refl
  at-rows j (x ∷ t) = ground (arith, at-rows j t, at-remove (key x) (rows t) j, e.beq_iff (key x) j)

  In-rows : (t : List Row) (r : Row) → In r (rows t) ↔ (at (key r) t ≡ some r)
  In-rows [] r = ground arith
  In-rows (x ∷ t) r = ground (
    arith,
    In-rows t r,
    In-filter (λ y. not (key y == key x)) r (rows t),
    e.beq_iff (key x) (key r),
    e.beq_iff (key r) (key x),
  )

  pub at-modify :
      (k : Key) (f : Row → Row) (t : List Row) (j : Key) (r : Row)
      → at k t ≡ some r
      → key (f r) ≡ k
      → at j (modify k f t) ≡ (if k == j then some (f r) else at j t)
  at-modify k f [] j r h p = cc
  at-modify k f (x ∷ t) j r h p = ground (
    arith,
    at-modify k f t j r,
    e.beq_iff (key x) k,
    e.beq_iff (key x) j,
    e.beq_iff k j,
    e.beq_iff (key (f x)) j,
  )

  remove_absent : (k : Key) (t : List Row) → at k t ≡ none → remove k t ≡ t
  remove_absent k [] h = refl
  remove_absent k (x ∷ t) h = ground (arith, remove_absent k t)

  remove-modify :
      (j k : Key) (f : Row → Row) (t : List Row) (r : Row)
      → at k t ≡ some r
      → key (f r) ≡ k
      → j ≢ k
      → remove j (modify k f t) ≡ modify k f (remove j t)
  remove-modify j k f [] r h p ne = cc
  remove-modify j k f (x ∷ t) r h p ne = ground (
    arith,
    remove-modify j k f t r,
    e.beq_iff (key x) k,
    e.beq_iff (key x) j,
    e.beq_iff (key (f x)) j,
  )

  rows-modify :
      (k : Key) (f : Row → Row) (t : List Row) (r : Row)
      → at k t ≡ some r
      → key (f r) ≡ k
      → rows (modify k f t) ≡ modify k f (rows t)
  rows-modify k f [] r h p = cc
  rows-modify k f (x ∷ t) r h p = ground (
    arith,
    rows-modify k f t r,
    e.beq_iff (key x) k,
    remove-modify (key x) k f (rows t) r,
    at-rows k t,
  )

  length-modify :
      (q : Row → Bool) (k : Key) (f : Row → Row) (t : List Row) (r : Row)
      → at k t ≡ some r
      → length (filter q (modify k f t)) + bit (q r) ≡ length (filter q t) + bit (q (f r))
  length-modify q k f [] r h = cc
  length-modify q k f (x ∷ t) r h = ground (arith, length-modify q k f t r)

  abbrev pub rows_where : (Row → Bool) → List Row → List Row
  rows_where q t = filter q (rows t)

  pub In-rows_where :
      (q : Row → Bool) (t : List Row) (r : Row)
      → In r (rows_where q t) ↔ ((at (key r) t ≡ some r) × (q r ≡ true))
  In-rows_where q t r = ground (arith, In-filter q r (rows t), In-rows t r)

  abbrev pub vacant : Row → List Row → Bool
  vacant r t = elim (at (key r) t) [ none ↦ true | some _ ↦ false ]

  pub vacant-none : (r : Row) (t : List Row) → vacant r t ≡ true → at (key r) t ≡ none
  vacant-none r t h = ground arith

  pub count-cons :
      (q : Row → Bool) (r : Row) (t : List Row)
      → vacant r t ≡ true
      → length (rows_where q (r ∷ t)) ≡ length (rows_where q t) + bit (q r)
  count-cons q r t h =
      rw (remove_absent (key r) (rows t) (ground (arith, at-rows (key r) t))) (ground arith)

  pub count-modify :
      (q : Row → Bool) (k : Key) (f : Row → Row) (t : List Row) (r : Row)
      → at k t ≡ some r
      → key (f r) ≡ k
      → length (rows_where q (modify k f t)) + bit (q r) ≡ length (rows_where q t) + bit (q (f r))
  count-modify q k f t r h p =
      rw (rows-modify k f t r h p) (length-modify q k f (rows t) r (at-rows k t ∙ h))

  filter-remove :
      (q : Row → Bool) (k : Key) (t : List Row) → filter q (remove k t) ≡ remove k (filter q t)
  filter-remove q k [] = refl
  filter-remove q k (x ∷ t) = ground (arith, filter-remove q k t)

  pub at-rows_where :
      (q : Row → Bool) (t : List Row) (j : Key)
      → at j (rows_where (λ r. not (q r)) t) ≡ spared q (at j t)
  at-rows_where q [] j = refl
  at-rows_where q (x ∷ t) j = ground (
    arith,
    at-rows_where q t j,
    filter-remove (λ r. not (q r)) (key x) (rows t),
    at-remove (key x) (rows_where (λ r. not (q r)) t) j,
    e.beq_iff (key x) j,
  )
