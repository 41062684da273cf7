-- ===== src/Users.antt =====
-- backend/src/users/users.service.ts, `UsersService`, and backend/src/auth/guards/roles.guard.ts,
-- `RolesGuard`.
pub mod Access
use talkertive_chat_app.Base.{
  ℕ, String, Bool, true, false, not, ◌||◌, Option, none, some, List, [], ◌∷◌, ◌==◌, string_eq,
  is_none, if◌then◌else◌,
}
use talkertive_chat_app.Schema.{User}
use talkertive_chat_app.World.{
  ok, World, Clients, Action, pure, throw, gets, ◌>>=◌, ◌>>◌, throw_if, not_found, forbidden,
  update_user,
}

-- `Omit<User, 'hashedPassword'>`
pub record PublicUser : Type 0 where
  pub id : String
  pub name : Option String
  pub email : Option String
  pub image : Option String
  pub description : Option String
  pub role : String
  pub created_at : ℕ

abbrev pub without_password : User → PublicUser
without_password u = record {
  id = u.id;
  name = u.name;
  email = u.email;
  image = u.image;
  description = u.description;
  role = u.role;
  created_at = u.created_at;
}

-- The body of an update: the fields of `UpdateUserDto`, each absent or given, perhaps as null; and,
-- since the `ValidationPipe` of backend/src/main.ts has no `whitelist`, any other column of the
-- user's row, of which the image and the role stand here. What a body holds besides, such as nested
-- writes, is the action of `update_user_and` in Api.
pub record UpdateUserDto : Type 0 where
  pub name : Option (Option String)
  pub description : Option (Option String)
  pub image : Option (Option String)
  pub role : Option String

abbrev pub given : Option (Option String) → Option String → Option String
given none old = old
given (some new) old = new

abbrev pub apply_update : UpdateUserDto → User → User
apply_update d u = record u {
  name = given d.name u.name;
  description = given d.description u.description;
  image = given d.image u.image;
  role = elim d.role [ none ↦ u.role | some r ↦ r ];
}

-- `requiredRoles.includes(role)`
abbrev pub includes : List String → String → Bool
includes [] role = false
includes (r ∷ rs) role = r == role || includes rs role

module _ (p : Clients) where
  abbrev pub find_user : String → World → Option User
  find_user id w = p.user.find_unique id w.users

  unfoldable pub get_me : String → Action PublicUser
  get_me user_id w = elim (find_user user_id w) [
    | none ↦ throw (not_found "유저를 찾을 수 없습니다.") w
    | some u ↦ (ok (without_password u), w)
  ]

  unfoldable pub update_me : String → String → UpdateUserDto → Action PublicUser
  unfolding update_user
  update_me requester_id target_id d = do
    throw_if (not (requester_id == target_id)) (forbidden "본인의 정보만 수정할 수 있습니다.")
    user ← gets (find_user target_id)
    throw_if (is_none user) (not_found "유저를 찾을 수 없습니다.")
    updated ← update_user p target_id (apply_update d)
    pure (without_password updated)

  abbrev pub has_role : List String → Option User → Bool
  has_role roles none = false
  has_role roles (some u) = includes roles u.role

  -- `RolesGuard.canActivate` on the roles that the handler or its class requires, if any.
  unfoldable pub can_activate : Option (List String) → String → Action Bool
  can_activate none sub = pure true
  can_activate (some roles) sub = do
    user ← gets (find_user sub)
    throw_if (not (has_role roles user)) (forbidden "접근 권한이 없습니다.")
    pure true
