-- ===== src/World/Preserves.antt =====
-- Actions that keep an invariant of the state, and their composition.
use talkertive_chat_app.Base.{Bool, true, false, ◌≡◌, arith, sym, subst, inl, inr}
use talkertive_chat_app.World.State.{World}
use talkertive_chat_app.World.Monad.{
  Action, Exception, is_ok, ◌>>=◌, ◌>>◌, transaction, throw_if, both,
}
use talkertive_chat_app.World.Keeps.{Keeps, Result-cases}

module _ (P : World → Type 0) where
  abbrev pub Preserves : {A : Type 0} → Action A → Type 0
  Preserves m = (w : World) → P w → P (m w).1

  pub bind-Preserves :
      {A C : Type 0} (m : Action A) (f : A → Action C)
      → Preserves m
      → ((a : A) → Preserves (f a))
      → Preserves (m >>= f)
  bind-Preserves m f hm hf w h = elim (Result-cases (m w).0) [
    | inl (a, q) ↦ rw (q, ◌>>=◌) (hf a (m w).1 (hm w h))
    | inr (x, q) ↦ rw (q, ◌>>=◌) (hm w h)
  ]

  pub then-Preserves :
      {A C : Type 0} (m : Action A) (k : Action C) → Preserves m → Preserves k → Preserves (m >> k)
  then-Preserves m k hm hk = bind-Preserves m (λ _. k) hm (λ _. hk)

  pub throw_if-Preserves : (b : Bool) (x : Exception) → Preserves (throw_if b x)
  throw_if-Preserves true x w h = h
  throw_if-Preserves false x w h = h

  pub transaction-Preserves : {A : Type 0} (m : Action A) → Preserves m → Preserves (transaction m)
  transaction-Preserves m hm w h = elim (Result-cases (m w).0) [
    | inl (a, q) ↦ rw (q, transaction) (hm w h)
    | inr (x, q) ↦ rw (q, transaction) h
  ]

  pub both-Preserves : (m k : Action (Unit {0})) → Preserves m → Preserves k → Preserves (both m k)
  both-Preserves m k hm hk w h = elim (Result-cases (m w).0) [
    | inl (a, q) ↦ rw (q, both) (hk _ (hm w h))
    | inr (x, q) ↦ rw (q, both) (hk _ (hm w h))
  ]

-- What leaves a part of the state alone keeps each predicate of that part.
pub Keeps-Preserves :
    {B : Type 0} (g : World → B) (Q : B → Type 0) {A : Type 0} (m : Action A)
    → Keeps g m
    → Preserves (λ w. Q (g w)) m
Keeps-Preserves g Q m k w h = subst Q (sym (k w)) h

-- An action that leaves a part of the state alone wherever it fails.
module _ {B : Type 0} (g : World → B) where
  abbrev pub KeepsFailing : {A : Type 0} → Action A → Type 0
  KeepsFailing m = (w : World) → is_ok (m w).0 ≡ false → g (m w).1 ≡ g w

  pub bind-KeepsFailing :
      {A C : Type 0} (m : Action A) (f : A → Action C)
      → Keeps g m
      → ((a : A) → KeepsFailing (f a))
      → KeepsFailing (m >>= f)
  bind-KeepsFailing m f hm hf w failed = elim (Result-cases (m w).0) [
    | inl (a, q) ↦ ground (arith, hm w, hf a (m w).1)
    | inr (x, q) ↦ ground (arith, hm w)
  ]
