-- ===== src/SignUp/Accounts.antt =====
-- Which accounts `signUp` makes, and that they can be signed in to.
use talkertive_chat_app.Base.{
  ℕ, leb, String, Bool, true, false, not, ◌&&◌, ◌≡◌, refl, ap, none, some, is_none, List, [], ◌∷◌,
  In, head?, ◌==◌, string_eq, if◌then◌else◌, arith, id_iff, inl, inr, Bool-cases,
}
use talkertive_chat_app.Base.Text.{utf16_length}
use talkertive_chat_app.Schema.{User}
use talkertive_chat_app.World.{World, Clients, Fresh}
use talkertive_chat_app.Login.{authorize, signed_in, Attempts, lookup}
use talkertive_chat_app.SignUp.{
  SignUpStatus, signed_up, sign_up_error, sign_up, has_char, has_email, is_letter, is_digit,
  find_by_email, new_user,
}

abbrev pub is_signed_up : SignUpStatus → Bool
is_signed_up signed_up = true
is_signed_up (sign_up_error message) = false

module _ (p : Clients) (salt_and_hash : String → String) where
  -- A sign-up succeeds exactly where the password has at least eight code units, a letter and a
  -- digit, no user has the email and the database admits the user. Where it succeeds, the user is
  -- stored as an ordinary one with the hash of the password and no other changes; where it fails,
  -- nothing changes.
  pub sign_up_lem :
      (e : Fresh) (email password name : String) (w : World)
      → let (s, w') = sign_up p salt_and_hash e email password name w in
        (is_signed_up s ≡ (
          not (leb (utf16_length password) 7)
          && has_char is_letter password
          && has_char is_digit password
          && is_none (find_by_email p salt_and_hash email w)
          && p.user.admits (new_user p salt_and_hash e email password name) w.users))
        × (is_signed_up s ≡ false → w' ≡ w)
        × (is_signed_up s ≡ true
            → (j : String)
            → p.user.find_unique j w'.users ≡ (
                if e.id == j
                then some (new_user p salt_and_hash e email password name)
                else p.user.find_unique j w.users))
  unfolding sign_up
  sign_up_lem e email password name w = (
    ground arith,
    ground arith,
    λ done j.
        ground
          (arith, p.user.find-create (new_user p salt_and_hash e email password name) w.users j),
  )

  signed_up_facts :
      (e : Fresh) (email password name : String) (w : World)
      → (sign_up p salt_and_hash e email password name w).0 ≡ signed_up
      → let w' = (sign_up p salt_and_hash e email password name w).1 in
        let u = new_user p salt_and_hash e email password name in
        (find_by_email p salt_and_hash email w ≡ none)
        × ((password == "") ≡ false)
        × ((j : String)
            → p.user.find_unique j w'.users
              ≡ (if e.id == j then some u else p.user.find_unique j w.users))
  signed_up_facts e email password name w done =
      let (iff, same, stored) = sign_up_lem e email password name w in
      let empty : password ≡ "" → utf16_length password ≡ 0 = λ q. ap utf16_length q in
      (ground arith, ground (arith, id_iff password ""), stored (ground arith))

  -- Where the first user that a query gives has to be the only one that it can give.
  head?-only :
      (u : User) (l : List User) → In u l → ((r : User) → In r l → r ≡ u) → head? l ≡ some u
  head?-only u [] h k = absurd h
  head?-only u (x ∷ xs) h k = ap some (k x (inl refl))

  head?-none : (l : List User) (r : User) → head? l ≡ none → In r l → ⊥
  head?-none [] r h i = i
  head?-none (x ∷ xs) r h i = absurd cc

  find_by_email-new :
      (e : Fresh) (email password name : String) (w : World)
      → (sign_up p salt_and_hash e email password name w).0 ≡ signed_up
      → find_by_email p salt_and_hash email (sign_up p salt_and_hash e email password name w).1
        ≡ some (new_user p salt_and_hash e email password name)
  find_by_email-new e email password name w done =
      let w' = (sign_up p salt_and_hash e email password name w).1 in
      let u = new_user p salt_and_hash e email password name in
      let (free, good, stored) = signed_up_facts e email password name w done in
      let q = has_email email in
      let rows = p.user.find_many q w'.users in
      let has : q u ≡ true = ground (arith, id_iff email email) in
      head?-only u rows
        ((p.user.In-find_many q w'.users u).1 (ground (arith, stored e.id, id_iff e.id e.id), has))
        (λ r i.
          let (found, same) = (p.user.In-find_many q w'.users r).0 i in
          elim (Bool-cases (e.id == r.id)) [
            | inl mine ↦ ground (arith, stored r.id)
            | inr other ↦
                let old : p.user.find_unique r.id w.users ≡ some r = ground (arith, stored r.id) in
                absurd (
                  head?-none (p.user.find_many q w.users) r free
                    ((p.user.In-find_many q w.users r).1 (old, same)))
          ])

  -- Whoever has signed up can sign in at once with the same email and password, from an address
  -- with no attempts, where the email is not the empty text and bcrypt takes a password for that of
  -- its own hash, which is not empty.
  pub sign_up-authorize :
      (compare_password : String → String → Bool) (e : Fresh) (email password name : String)
      (w : World) (now : ℕ) (ip : String) (m : Attempts)
      → compare_password password (salt_and_hash password) ≡ true
      → (salt_and_hash password == "") ≡ false
      → (sign_up p salt_and_hash e email password name w).0 ≡ signed_up
      → (email == "") ≡ false
      → lookup ip m ≡ none
      → let w' = (sign_up p salt_and_hash e email password name w).1 in
        (authorize
          (λ a. find_by_email p salt_and_hash a w')
          compare_password
          now
          ip
          (some (record { email = email; password = password }))
          m).0
        ≡ signed_in (new_user p salt_and_hash e email password name)
  unfolding authorize
  sign_up-authorize compare_password e email password name w now ip m right hashed done given new =
      ground (
        arith,
        find_by_email-new e email password name w done,
        (signed_up_facts e email password name w done).1,
      )
