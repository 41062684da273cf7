-- ===== src/Base/Lists.antt =====
-- JavaScript's array methods that the source uses, and membership as predicates by recursion.
use Prim.Native.Nat.{ℕ, suc}
use mathlib.Core.Path.{◌≡◌, refl, ap}
use mathlib.Core.Logic.{◌⊎◌, inl, inr, ◌↔◌}
use mathlib.Core.Bool.{Bool, true}
use mathlib.Core.Option.{Option, none, some}
use mathlib.Core.List.{List, [], ◌∷◌, ◌++◌, map}
use native.Mathlib.Omega.{arith}
use talkertive_chat_app.Base.Tests.{if◌then◌else◌, Bool-cases}

module _ {ℓ} {A : Type ℓ} where
  abbrev pub length : List A → ℕ
  length [] = 0
  length (x ∷ xs) = suc (length xs)

  -- `xs.filter(p)`
  abbrev pub filter : (A → Bool) → List A → List A
  filter p [] = []
  filter p (x ∷ xs) = if p x then x ∷ filter p xs else filter p xs

  -- `xs.find(p)`
  abbrev pub find : (A → Bool) → List A → Option A
  find p [] = none
  find p (x ∷ xs) = if p x then some x else find p xs

  -- `xs[0] ?? null`
  abbrev pub head? : List A → Option A
  head? [] = none
  head? (x ∷ xs) = some x

  abbrev pub All {κ} : (A → Type κ) → List A → Type κ
  All P [] = Unit
  All P (x ∷ xs) = P x × All P xs

pub List-cases {ℓ} : {A : Type ℓ} (l : List A) → (l ≡ []) ⊎ ((x : A) × (xs : List A) × (l ≡ x ∷ xs))
List-cases [] = inl refl
List-cases (x ∷ xs) = inr (x, xs, refl)

module _ {A : Type 0} where
  abbrev pub In : A → List A → Type 0
  In a [] = ⊥
  In a (x ∷ xs) = (x ≡ a) ⊎ In a xs

  pub In-filter :
      (p : A → Bool) (a : A) (xs : List A) → In a (filter p xs) ↔ (In a xs × (p a ≡ true))
  In-filter p a [] = (λ h. absurd h, λ h. h.0)
  In-filter p a (x ∷ xs) =
      let ih = In-filter p a xs in
      elim (Bool-cases (p x)) [
        | inl e ↦ rw e (
          λ h. elim h [ inl q ↦ (inl q, rw (← q) e) | inr m ↦ (inr (ih.0 m).0, (ih.0 m).1) ],
          λ h. elim h.0 [ inl q ↦ inl q | inr m ↦ inr (ih.1 (m, h.1)) ],
        )
        | inr e ↦ rw e (
          λ h. (inr (ih.0 h).0, (ih.0 h).1),
          λ h. elim h.0 [ inl q ↦ absurd (cc (rw q at e, h.1)) | inr m ↦ ih.1 (m, h.1) ],
        )
      ]

pub append_assoc : {A : Type 0} (xs ys zs : List A) → (xs ++ ys) ++ zs ≡ xs ++ (ys ++ zs)
append_assoc [] ys zs = refl
append_assoc (x ∷ xs) ys zs = ap (λ t. x ∷ t) (append_assoc xs ys zs)

module _ {A : Type 0} (q : A → Bool) where
  pub find-In : (x : A) (l : List A) → find q l ≡ some x → In x l × (q x ≡ true)
  find-In x [] h = absurd cc
  find-In x (y ∷ ys) h = ground (arith, find-In x ys)

  pub In-find : (x : A) (l : List A) → In x l → q x ≡ true → (y : A) × (find q l ≡ some y)
  In-find x [] h good = absurd h
  In-find x (y ∷ ys) h good = elim (Bool-cases (q y)) [
    | inl yes' ↦ (y, ground arith)
    | inr no' ↦ elim h [
      | inl same ↦ absurd (ground (arith, ap q same))
      | inr more ↦ let (z, found) = In-find x ys more good in (z, ground arith)
    ]
  ]

module _ {A B : Type 0} (f : A → B) where
  pub In-map : (y : B) (l : List A) → In y (map f l) → (x : A) × In x l × (f x ≡ y)
  In-map y [] h = absurd h
  In-map y (x ∷ xs) (inl e) = (x, inl refl, e)
  In-map y (x ∷ xs) (inr h) = let (z, i, e) = In-map y xs h in (z, inr i, e)

  pub map-In : (x : A) (l : List A) → In x l → In (f x) (map f l)
  map-In x [] h = absurd h
  map-In x (y ∷ ys) (inl e) = inl (ap f e)
  map-In x (y ∷ ys) (inr h) = inr (map-In x ys h)

  pub length-map : (l : List A) → length (map f l) ≡ length l
  length-map [] = refl
  length-map (x ∷ xs) = ap suc (length-map xs)
