-- ===== src/World/Monad.antt =====
-- A service method as state passing with exceptions. What was written before a throw stays
-- written, except inside `$transaction`.
use talkertive_chat_app.Base.{ℕ, String, Bool, true, false}
use talkertive_chat_app.World.State.{World}

-- The exceptions of @nestjs/common and @nestjs/websockets with their messages, and the errors that
-- reach the caller as 500 from below: a Prisma request error with its code, an S3 error and a
-- TypeError.
pub data Exception : Type 0 where
  not_found forbidden bad_request conflict internal_server_error ws_exception : String → Exception
  bad_request_of : String → ℕ → String → Exception
  known_request : String → Exception
  s3_error type_error unauthorized : Exception

pub data Result (A : Type 0) : Type 0 where
  ok : A → Result A
  err : Exception → Result A

abbrev pub is_ok : {A : Type 0} → Result A → Bool
is_ok (ok _) = true
is_ok (err _) = false

abbrev pub Action : Type 0 → Type 0
Action A = World → Result A × World

module _ {A : Type 0} where
  abbrev pub pure : A → Action A
  pure a w = (ok a, w)

  abbrev pub throw : Exception → Action A
  throw e w = (err e, w)

  abbrev pub gets : (World → A) → Action A
  gets f w = (ok (f w), w)

  -- `prisma.$transaction([…])`: an error rolls everything back.
  abbrev pub transaction : Action A → Action A
  transaction m w = let (r, w') = m w in elim r [ ok a ↦ (ok a, w') | err e ↦ (err e, w) ]

infixl 5 ◌>>=◌ ◌>>◌
abbrev pub ◌>>=◌ : {A B : Type 0} → Action A → (A → Action B) → Action B
◌>>=◌ m f w = let (r, w') = m w in elim r [ ok a ↦ f a w' | err e ↦ (err e, w') ]

abbrev pub ◌>>◌ : {A B : Type 0} → Action A → Action B → Action B
m >> k = m >>= λ _. k

abbrev pub throw_if : Bool → Exception → Action (Unit {0})
throw_if true e w = (err e, w)
throw_if false e w = (ok tt, w)

abbrev pub modify : (World → World) → Action (Unit {0})
modify f w = (ok tt, f w)

-- `Promise.all([a, b])`: both run to their end, and an error of either is thrown.
abbrev pub both : Action (Unit {0}) → Action (Unit {0}) → Action (Unit {0})
both a b w =
    let (r, w₁) = a w in let (r', w₂) = b w₁ in elim r [ ok _ ↦ (r', w₂) | err e ↦ (err e, w₂) ]
