-- ===== src/Prisma/Pages.antt =====
-- Pages of rows kept in memory.
use talkertive_chat_app.Base.{
  ℕ, ◌≤◌, ◌≡◌, Bool, Option, none, some, List, [], ◌∷◌, Eq, ◌==◌, length, In, take, drop,
  drop_until, In-take, In-drop, In-drop_until, In-sort, sort, IsOrder, IsSorted, IsSorted-take,
  IsSorted-drop, IsSorted-drop_until, sort-IsSorted, length-take-le, arith,
}
use talkertive_chat_app.Prisma.Interface.{Page, whole}
use talkertive_chat_app.Prisma.Rows.{rows_where}

module _ {Row Key : Type 0} ⦃e : Eq Key⦄ (key : Row → Key) where
  -- A page: sorted, from the cursor's row on, then `skip` and `take`.
  abbrev from_cursor : Option Key → List Row → List Row
  from_cursor none t = t
  from_cursor (some k) t = drop_until (λ r. key r == k) t

  abbrev taken : Option ℕ → List Row → List Row
  taken none t = t
  taken (some n) t = take n t

  abbrev pub page_of : Page Row Key → (Row → Bool) → List Row → List Row
  page_of a q t =
      taken a.take (drop a.skip (from_cursor a.cursor (sort a.order (rows_where key q t))))

  In-from_cursor : (k : Option Key) (t : List Row) (r : Row) → In r (from_cursor k t) → In r t
  In-from_cursor none t r h = h
  In-from_cursor (some k) t r h = In-drop_until _ t r h

  In-taken : (n : Option ℕ) (t : List Row) (r : Row) → In r (taken n t) → In r t
  In-taken none t r h = h
  In-taken (some n) t r h = In-take n t r h

  pub In-page_of :
      (a : Page Row Key) (q : Row → Bool) (t : List Row) (r : Row)
      → In r (page_of a q t)
      → In r (rows_where key q t)
  In-page_of a q t r h =
      let sorted = sort a.order (rows_where key q t) in
      let cut = from_cursor a.cursor sorted in
      (In-sort a.order (rows_where key q t) r).0 (
        In-from_cursor a.cursor sorted r
          (In-drop a.skip cut r (In-taken a.take (drop a.skip cut) r h)))

  from_cursor-IsSorted :
      (order : Row → Row → Bool) (k : Option Key) (t : List Row)
      → IsSorted order t
      → IsSorted order (from_cursor k t)
  from_cursor-IsSorted order none t h = h
  from_cursor-IsSorted order (some k) t h = IsSorted-drop_until order _ t h

  taken-IsSorted :
      (order : Row → Row → Bool) (n : Option ℕ) (t : List Row)
      → IsSorted order t
      → IsSorted order (taken n t)
  taken-IsSorted order none t h = h
  taken-IsSorted order (some n) t h = IsSorted-take order n t h

  pub page_of-IsSorted :
      (a : Page Row Key) (q : Row → Bool) (t : List Row)
      → IsOrder a.order
      → IsSorted a.order (page_of a q t)
  page_of-IsSorted a q t o =
      let sorted = sort a.order (rows_where key q t) in
      let cut = from_cursor a.cursor sorted in
      taken-IsSorted a.order a.take (drop a.skip cut) (
        IsSorted-drop a.order a.skip cut (
          from_cursor-IsSorted a.order a.cursor sorted
            (sort-IsSorted a.order o (rows_where key q t))))

  pub length-page_of-le :
      (a : Page Row Key) (q : Row → Bool) (t : List Row) (n : ℕ)
      → a.take ≡ some n
      → length (page_of a q t) ≤ n
  length-page_of-le a q t n e = rw e (length-take-le n _)

  pub In-page_of-whole :
      (order : Row → Row → Bool) (q : Row → Bool) (t : List Row) (r : Row)
      → In r (rows_where key q t)
      → In r (page_of (whole order) q t)
  In-page_of-whole order q t r h = (In-sort order (rows_where key q t) r).1 h

  pub page_of_first :
      (order : Row → Row → Bool) (q : Row → Bool) (t : List Row) (x : Row) (xs : List Row)
      → page_of (whole order) q t ≡ x ∷ xs
      → page_of (record { order = order; skip = 0; take = some 1; cursor = none }) q t ≡ x ∷ []
  page_of_first order q t x xs e = rw e (ground arith)
