-- ===== src/Base/Sorting.antt =====
-- Stable sorting by a number, as `Array.prototype.sort` does it with a comparator `b - a`, and the
-- prefixes and suffixes of a list.
use Prim.Native.Nat.{ℕ, zero, suc, ◌≤◌}
use mathlib.Core.Path.{◌≡◌}
use mathlib.Core.Logic.{◌⊎◌, inl, inr, ◌↔◌}
use mathlib.Core.Bool.{Bool, true, false}
use mathlib.Core.List.{List, [], ◌∷◌}
use native.Mathlib.Omega.{arith}
use talkertive_chat_app.Base.Tests.{if◌then◌else◌, leb}
use talkertive_chat_app.Base.Lists.{length, In, All}

module _ {A : Type 0} where
  abbrev pub take : ℕ → List A → List A
  take zero xs = []
  take (suc n) [] = []
  take (suc n) (x ∷ xs) = x ∷ take n xs

  abbrev pub drop : ℕ → List A → List A
  drop zero xs = xs
  drop (suc n) [] = []
  drop (suc n) (x ∷ xs) = drop n xs

  -- The suffix that begins at the first item that passes.
  abbrev pub drop_until : (A → Bool) → List A → List A
  drop_until q [] = []
  drop_until q (x ∷ xs) = if q x then x ∷ xs else drop_until q xs

  pub In-take : (n : ℕ) (xs : List A) (a : A) → In a (take n xs) → In a xs
  In-take zero xs a h = absurd h
  In-take (suc n) [] a h = h
  In-take (suc n) (x ∷ xs) a (inl e) = inl e
  In-take (suc n) (x ∷ xs) a (inr h) = inr (In-take n xs a h)

  pub In-drop : (n : ℕ) (xs : List A) (a : A) → In a (drop n xs) → In a xs
  In-drop zero xs a h = h
  In-drop (suc n) [] a h = h
  In-drop (suc n) (x ∷ xs) a h = inr (In-drop n xs a h)

  pub In-drop_until : (q : A → Bool) (xs : List A) (a : A) → In a (drop_until q xs) → In a xs
  In-drop_until q [] a h = h
  In-drop_until q (x ∷ xs) a h = ground (arith, In-drop_until q xs a)

  pub length-take-le : (n : ℕ) (xs : List A) → length (take n xs) ≤ n
  length-take-le zero xs = omega arith
  length-take-le (suc n) [] = omega arith
  length-take-le (suc n) (x ∷ xs) = omega (arith, length-take-le n xs)

module _ {A : Type 0} (before : A → A → Bool) where
  -- Behind all that may stand before it, as a stable sort keeps equal items in order.
  abbrev pub insert : A → List A → List A
  insert a [] = a ∷ []
  insert a (x ∷ xs) = if before a x then a ∷ x ∷ xs else x ∷ insert a xs

  abbrev pub sort : List A → List A
  sort [] = []
  sort (x ∷ xs) = insert x (sort xs)

  abbrev pub IsSorted : List A → Type 0
  IsSorted [] = Unit
  IsSorted (x ∷ xs) = All (λ y. before x y ≡ true) xs × IsSorted xs

  In-insert : (a : A) (xs : List A) (b : A) → In b (insert a xs) ↔ ((a ≡ b) ⊎ In b xs)
  In-insert a [] b = ground arith
  In-insert a (x ∷ xs) b = ground (arith, In-insert a xs b)

  pub In-sort : (xs : List A) (b : A) → In b (sort xs) ↔ In b xs
  In-sort [] b = ground arith
  In-sort (x ∷ xs) b = ground (arith, In-sort xs b, In-insert x (sort xs) b)

  -- A test that orders by a number, either way.
  pub record IsOrder : Type 0 where
    pub total : (a b : A) → before a b ≡ false → before b a ≡ true
    pub trans : (a b c : A) → before a b ≡ true → before b c ≡ true → before a c ≡ true

  module _ (o : IsOrder) where
    All-before :
        (a x : A) (xs : List A)
        → before a x ≡ true
        → All (λ y. before x y ≡ true) xs
        → All (λ y. before a y ≡ true) xs
    All-before a x [] h k = tt
    All-before a x (y ∷ xs) h (e, k) = (o.trans a x y h e, All-before a x xs h k)

    All-insert :
        (x a : A) (xs : List A)
        → before x a ≡ true
        → All (λ y. before x y ≡ true) xs
        → All (λ y. before x y ≡ true) (insert a xs)
    All-insert x a [] h k = (h, tt)
    All-insert x a (y ∷ xs) h (e, k) = ground (arith, All-insert x a xs h k)

    insert-IsSorted : (a : A) (xs : List A) → IsSorted xs → IsSorted (insert a xs)
    insert-IsSorted a [] h = (tt, tt)
    insert-IsSorted a (x ∷ xs) (h, k) =
        ground (arith, insert-IsSorted a xs k, All-before a x xs, o.total a x, All-insert x a xs)

    pub sort-IsSorted : (xs : List A) → IsSorted (sort xs)
    sort-IsSorted [] = tt
    sort-IsSorted (x ∷ xs) = insert-IsSorted x (sort xs) (sort-IsSorted xs)

  All-take : (P : A → Type 0) (n : ℕ) (xs : List A) → All P xs → All P (take n xs)
  All-take P zero xs h = tt
  All-take P (suc n) [] h = tt
  All-take P (suc n) (x ∷ xs) (e, h) = (e, All-take P n xs h)

  pub IsSorted-take : (n : ℕ) (xs : List A) → IsSorted xs → IsSorted (take n xs)
  IsSorted-take zero xs h = tt
  IsSorted-take (suc n) [] h = tt
  IsSorted-take (suc n) (x ∷ xs) (e, h) = (All-take _ n xs e, IsSorted-take n xs h)

  pub IsSorted-drop : (n : ℕ) (xs : List A) → IsSorted xs → IsSorted (drop n xs)
  IsSorted-drop zero xs h = h
  IsSorted-drop (suc n) [] h = tt
  IsSorted-drop (suc n) (x ∷ xs) (e, h) = IsSorted-drop n xs h

  pub IsSorted-drop_until : (q : A → Bool) (xs : List A) → IsSorted xs → IsSorted (drop_until q xs)
  IsSorted-drop_until q [] h = tt
  IsSorted-drop_until q (x ∷ xs) (e, h) = ground (arith, IsSorted-drop_until q xs h)

-- The orders `{ field: 'asc' }` and `{ field: 'desc' }`.
module _ {A : Type 0} (by : A → ℕ) where
  abbrev pub ascending : A → A → Bool
  ascending a b = leb (by a) (by b)

  abbrev pub descending : A → A → Bool
  descending a b = leb (by b) (by a)

  pub ascending-IsOrder : IsOrder ascending
  ascending-IsOrder = record { total = λ a b h. ground arith; trans = λ a b c h k. ground arith }

  pub descending-IsOrder : IsOrder descending
  descending-IsOrder = record { total = λ a b h. ground arith; trans = λ a b c h k. ground arith }
