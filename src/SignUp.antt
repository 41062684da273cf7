-- ===== src/SignUp.antt =====
-- frontend/app/actions/auth-actions.ts, `signUp`: what a password must have, and the user that is
-- made. `salt_and_hash` is `saltAndHashPassword` of frontend/lib/password-utils.ts, which calls
-- bcrypt; Prisma is that of the backend's tables.
pub mod Accounts
use Prim.Native.Char.{Char, code}
use Prim.Native.String
use mathlib.Core.Option
use talkertive_chat_app.Base.{
  ℕ, String, Bool, true, false, not, ◌&&◌, ◌||◌, Option, none, some, List, [], ◌∷◌, ◌==◌, string_eq,
  leb, ltb, is_none, head?, if◌then◌else◌,
}
use talkertive_chat_app.Base.Text.{utf16_length}
use talkertive_chat_app.Schema.{User}
use talkertive_chat_app.World.{World, Clients, Fresh}

pub data SignUpStatus : Type 0 where
  signed_up : SignUpStatus
  sign_up_error : String → SignUpStatus

-- `/[A-Za-z]/.test(s)` and `/[0-9]/.test(s)`
abbrev pub is_letter : ℕ → Bool
is_letter c = (leb 65 c && leb c 90) || (leb 97 c && leb c 122)

abbrev pub is_digit : ℕ → Bool
is_digit c = leb 48 c && leb c 57

abbrev pub has_char : (ℕ → Bool) → String → Bool
has_char q String.[] = false
has_char q (String.◌∷◌ c s) = q (code c) || has_char q s

-- What the first two checks of `signUp` say, if anything.
unfoldable pub password_error : String → Option String
password_error password =
    if ltb (utf16_length password) 8
    then some "비밀번호는 8자 이상이어야 합니다."
    else if not (has_char is_letter password) || not (has_char is_digit password)
    then some "비밀번호는 영문과 숫자를 모두 포함해야 합니다."
    else none

abbrev pub has_email : String → User → Bool
has_email email u = Option.get_or (Option.map (λ e. e == email) u.email) false

module _ (p : Clients) (salt_and_hash : String → String) where
  -- `findUnique({ where: { email } })`
  abbrev pub find_by_email : String → World → Option User
  find_by_email email w = head? (p.user.find_many (has_email email) w.users)

  abbrev pub new_user : Fresh → String → String → String → User
  new_user e email password name = record {
    id = e.id;
    name = some name;
    email = some email;
    image = none;
    hashed_password = some (salt_and_hash password);
    description = none;
    role = "USER";
    created_at = e.now;
  }

  -- Whatever throws is caught: a user whom the database does not admit is an error like the others.
  unfoldable pub sign_up : Fresh → String → String → String → World → SignUpStatus × World
  unfolding password_error
  sign_up e email password name w = elim (password_error password) [
    | some message ↦ (sign_up_error message, w)
    | none ↦
        let user = new_user e email password name in
        if not (is_none (find_by_email email w))
        then (sign_up_error "이미 존재하는 이메일입니다.", w)
        else if p.user.admits user w.users
        then (signed_up, record w { users = p.user.create user w.users })
        else (sign_up_error "회원가입에 실패했습니다.", w)
  ]
