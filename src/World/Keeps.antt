-- ===== src/World/Keeps.antt =====
-- Actions that leave a part of the state alone, and their composition.
use talkertive_chat_app.Base.{◌≡◌, refl, ◌⊎◌, inl, inr, arith, Bool, true, false}
use talkertive_chat_app.World.State.{World}
use talkertive_chat_app.World.Monad.{
  Action, Result, ok, err, Exception, ◌>>=◌, ◌>>◌, transaction, pure, is_ok, throw_if,
}

pub Result-cases :
    {A : Type 0} (r : Result A) → ((a : A) × (r ≡ ok a)) ⊎ ((x : Exception) × (r ≡ err x))
Result-cases (ok a) = inl (a, refl)
Result-cases (err x) = inr (x, refl)

module _ {B : Type 0} (g : World → B) where
  abbrev pub Keeps : {A : Type 0} → Action A → Type 0
  Keeps m = (w : World) → g (m w).1 ≡ g w

  pub bind-Keeps :
      {A C : Type 0} (m : Action A) (f : A → Action C)
      → Keeps m
      → ((a : A) → Keeps (f a))
      → Keeps (m >>= f)
  bind-Keeps m f hm hf w = elim (Result-cases (m w).0) [
    | inl (a, q) ↦ ground (arith, hm w, hf a (m w).1)
    | inr (x, q) ↦ ground (arith, hm w)
  ]

  pub throw_if-Keeps : (b : Bool) (x : Exception) → Keeps (throw_if b x)
  throw_if-Keeps true x w = refl
  throw_if-Keeps false x w = refl

  pub transaction-Keeps : {A : Type 0} (m : Action A) → Keeps m → Keeps (transaction m)
  transaction-Keeps m hm w = elim (Result-cases (m w).0) [
    | inl (a, q) ↦ ground (arith, hm w)
    | inr (x, q) ↦ ground (arith, hm w)
  ]

-- A write with what is nested in it happens as a whole or not at all.
pub nested-transaction :
    {A : Type 0} (m : Action A) (nested : A → Action (Unit {0})) (w : World)
    → let (res, w') = transaction (m >>= λ a. nested a >> pure a) w in
      ((is_ok res ≡ false) × (w' ≡ w))
      ⊎ ((a : A) × ((m w).0 ≡ ok a) × (res ≡ ok a) × (w' ≡ (nested a (m w).1).1))
nested-transaction m nested w = elim (Result-cases (m w).0) [
  | inr (x, failed) ↦ inl (ground arith)
  | inl (a, done) ↦ elim (Result-cases (nested a (m w).1).0) [
    | inr (x, failed) ↦ inl (ground arith)
    | inl (u, all) ↦ inr (a, done, ground arith, ground arith)
  ]
]
