-- ===== src/Login/Attempts.antt =====
-- The limit on login attempts: five in a window, for each address on its own.
use talkertive_chat_app.Base.{
  ℕ, ◌+◌, ◌≤◌, ◌<◌, String, Bool, true, false, ◌≡◌, ◌≢◌, refl, Option, none, some, List, [], ◌∷◌,
  ◌==◌, string_eq, if◌then◌else◌, arith, id_iff, bit, All, inl, inr, Option-cases, min, length, ◌-◌,
  Bool-cases, leb, leb→le,
}
use talkertive_chat_app.Schema.{User}
use talkertive_chat_app.Login.{
  Attempt, Attempts, lookup, put, remove, check_login_rate_limit, Credentials, authorize, signed_in,
  first_attempt, one_more, is_over, authenticate, refused, too_many_attempts,
}

pub lookup-put :
    (ip j : String) (a : Attempt) (m : Attempts)
    → lookup j (put ip a m) ≡ (if ip == j then some a else lookup j m)
lookup-put ip j a [] = refl
lookup-put ip j a ((k, b) ∷ m) =
    ground (arith, id_iff k ip, id_iff k j, id_iff ip j, lookup-put ip j a m)

pub lookup-remove :
    (ip j : String) (m : Attempts) → lookup j (remove ip m) ≡ (if ip == j then none else lookup j m)
lookup-remove ip j [] = ground arith
lookup-remove ip j ((k, b) ∷ m) =
    ground (arith, id_iff k ip, id_iff k j, id_iff ip j, lookup-remove ip j m)

-- The attempts of one address at these times, one after the other, and how many of them pass.
abbrev pub passed : String → List ℕ → Attempts → ℕ
passed ip [] m = 0
passed ip (t ∷ ts) m =
    bit (check_login_rate_limit t ip m).0 + passed ip ts (check_login_rate_limit t ip m).1

check_full :
    (now : ℕ) (ip : String) (m : Attempts) (a : Attempt)
    → lookup ip m ≡ some a
    → now ≤ a.reset_at
    → 5 ≤ a.count
    → check_login_rate_limit now ip m ≡ (false, m)
unfolding check_login_rate_limit
check_full now ip m a e open_window full = ground arith

check_room :
    (now : ℕ) (ip : String) (m : Attempts) (a : Attempt)
    → lookup ip m ≡ some a
    → now ≤ a.reset_at
    → a.count < 5
    → check_login_rate_limit now ip m ≡ (true, put ip (one_more a) m)
unfolding check_login_rate_limit
check_room now ip m a e open_window room = ground arith

-- While a window is open and its count is at most five, what is left of the five passes, and no
-- more.
passed_in_window :
    (ip : String) (ts : List ℕ) (m : Attempts) (a : Attempt)
    → lookup ip m ≡ some a
    → a.count ≤ 5
    → All (λ t. t ≤ a.reset_at) ts
    → passed ip ts m ≡ min (length ts) (5 - a.count)
passed_in_window ip [] m a e c h = omega arith
passed_in_window ip (t ∷ ts) m a e c (now, later) = elim (Bool-cases (leb 5 a.count)) [
  | inl full ↦
      let step = check_full t ip m a e now (leb→le 5 a.count full) in
      rw step (omega (arith, passed_in_window ip ts m a e c later, leb→le 5 a.count full))
  | inr room ↦
      let below : a.count < 5 = ground arith in
      let step = check_room t ip m a e now below in
      let e' = lookup-put ip ip (one_more a) m in
      rw step (
        omega (
          arith,
          passed_in_window ip ts (put ip (one_more a) m) (one_more a)
              (ground (arith, e', id_iff ip ip)) (omega arith) later,
        ))
]

check_first :
    (now : ℕ) (ip : String) (m : Attempts)
    → is_over now (lookup ip m) ≡ true
    → check_login_rate_limit now ip m ≡ (true, put ip (first_attempt now) m)
unfolding check_login_rate_limit
check_first now ip m over = ground arith

-- Where an address has no window open, an attempt opens one of fifteen minutes: of the attempts of
-- that address which follow in it, without a sign-in between, the first four pass too and the rest
-- do not.
pub five_attempts_pass :
    (ip : String) (now : ℕ) (ts : List ℕ) (m : Attempts)
    → is_over now (lookup ip m) ≡ true
    → All (λ t. t ≤ now + 900_000) ts
    → passed ip (now ∷ ts) m ≡ min (length ts + 1) 5
five_attempts_pass ip now ts m over h =
    let step = check_first now ip m over in
    let e = lookup-put ip ip (first_attempt now) m in
    rw step (
      omega (
        arith,
        passed_in_window ip ts (put ip (first_attempt now) m) (first_attempt now)
            (ground (arith, e, id_iff ip ip)) (omega arith) h,
      ))

-- What an attempt does to the record of another address: nothing.
check_login_rate_limit-lookup_ne :
    (now : ℕ) (ip j : String) (m : Attempts)
    → ip ≢ j
    → lookup j (check_login_rate_limit now ip m).1 ≡ lookup j m
unfolding check_login_rate_limit
check_login_rate_limit-lookup_ne now ip j m ne = elim (Option-cases (lookup ip m)) [
  | inl missing ↦ ground (arith, id_iff ip j, lookup-put ip j (first_attempt now) m)
  | inr (a, e) ↦
      ground
        (arith, id_iff ip j, lookup-put ip j (first_attempt now) m, lookup-put ip j (one_more a) m)
]

module _ (find_by_email : String → Option User) (compare_password : String → String → Bool) where
  -- An address over the limit is refused whatever it sends, also with the right password; and one
  -- that is signed in has sent credentials that match the user's, and its attempts are forgotten.
  authorize_limits :
      (now : ℕ) (ip : String) (c : Option Credentials) (m : Attempts)
      → ((check_login_rate_limit now ip m).0 ≡ false
          → (authorize find_by_email compare_password now ip c m).0 ≡ refused too_many_attempts)
        × ((u : User)
            → (authorize find_by_email compare_password now ip c m).0 ≡ signed_in u
            → (authenticate find_by_email compare_password c ≡ some u)
              × (lookup ip (authorize find_by_email compare_password now ip c m).1 ≡ none))
  unfolding authorize
  authorize_limits now ip c m = (
    λ h. ground arith,
    λ u h. (
      ground arith,
      ground (arith, lookup-remove ip ip (check_login_rate_limit now ip m).1, id_iff ip ip),
    ),
  )
