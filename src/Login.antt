-- ===== src/Login.antt =====
-- frontend/auth.ts: the limit on login attempts for an address and the credentials check behind
-- it.
pub mod Attempts
use Prim.Native.Char.{code}
use Prim.Native.String
use talkertive_chat_app.Base.{
  ℕ, suc, ◌+◌, String, Bool, true, false, not, ◌&&◌, ◌||◌, Option, none, some, List, [], ◌∷◌, ltb,
  leb, ◌==◌, string_eq, is_none, is_some, if◌then◌else◌,
}
use talkertive_chat_app.Schema.{User}
use talkertive_chat_app.World.{Result, ok, err}

abbrev pub max_login_attempts : ℕ
max_login_attempts = 5

abbrev pub login_window_ms : ℕ
login_window_ms = 900_000

pub record Attempt : Type 0 where
  pub count : ℕ
  pub reset_at : ℕ

-- `loginAttempts`, a Map from addresses.
abbrev pub Attempts : Type 0
Attempts = List (String × Attempt)

abbrev pub lookup : String → Attempts → Option Attempt
lookup ip [] = none
lookup ip ((k, a) ∷ m) = if k == ip then some a else lookup ip m

abbrev pub put : String → Attempt → Attempts → Attempts
put ip a [] = (ip, a) ∷ []
put ip a ((k, b) ∷ m) = if k == ip then (ip, a) ∷ m else (k, b) ∷ put ip a m

abbrev pub remove : String → Attempts → Attempts
remove ip [] = []
remove ip ((k, b) ∷ m) = if k == ip then remove ip m else (k, b) ∷ remove ip m

abbrev pub first_attempt : ℕ → Attempt
first_attempt now = record { count = 1; reset_at = now + login_window_ms }

-- `!record || now > record.resetAt`
abbrev pub is_over : ℕ → Option Attempt → Bool
is_over now none = true
is_over now (some a) = ltb a.reset_at now

abbrev pub count_of : Option Attempt → ℕ
count_of none = 0
count_of (some a) = a.count

abbrev pub one_more : Attempt → Attempt
one_more a = record a { count = a.count + 1 }

-- `checkLoginRateLimit`
unfoldable pub check_login_rate_limit : ℕ → String → Attempts → Bool × Attempts
check_login_rate_limit now ip m = elim (lookup ip m) [
  | none ↦ (true, put ip (first_attempt now) m)
  | some a ↦
      if ltb a.reset_at now
      then (true, put ip (first_attempt now) m)
      else if leb max_login_attempts a.count
      then (false, m)
      else (true, put ip (one_more a) m)
]

-- `resetLoginRateLimit`
unfoldable pub reset_login_rate_limit : String → Attempts → Attempts
reset_login_rate_limit ip m = remove ip m

pub data LoginError : Type 0 where
  too_many_attempts missing_credentials wrong_credentials : LoginError

pub data Login : Type 0 where
  signed_in : User → Login
  refused : LoginError → Login

pub record Credentials : Type 0 where
  pub email : String
  pub password : String

-- `!credentials || !credentials.email || !credentials.password`
abbrev pub is_incomplete : Option Credentials → Bool
is_incomplete none = true
is_incomplete (some c) = c.email == "" || c.password == ""

-- What `authorize` reads: the user with an email, and `comparePassword` of bcrypt.
module _ (find_by_email : String → Option User) (compare_password : String → String → Bool) where
  -- The user of these credentials; an account without a password has none.
  abbrev pub checked : Credentials → Option User → Option User
  checked c none = none
  checked c (some u) = elim u.hashed_password [
    | none ↦ none
    | some h ↦ if h == "" then none else if compare_password c.password h then some u else none
  ]

  abbrev pub authenticate : Option Credentials → Option User
  authenticate none = none
  authenticate (some c) = checked c (find_by_email c.email)

  unfoldable pub authorize : ℕ → String → Option Credentials → Attempts → Login × Attempts
  unfolding check_login_rate_limit reset_login_rate_limit
  authorize now ip credentials m =
      let (allowed, m') = check_login_rate_limit now ip m in
      if not allowed
      then (refused too_many_attempts, m')
      else if is_incomplete credentials
      then (refused missing_credentials, m')
      else elim (authenticate credentials) [
        | none ↦ (refused wrong_credentials, m')
        | some u ↦ (signed_in u, reset_login_rate_limit ip m')
      ]
