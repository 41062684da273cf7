-- ===== src/Api/Escalation.antt =====
-- What the body of an update of one's own account can reach.
use talkertive_chat_app.Base.{String, true, ◌≡◌, ap, some, arith, id_iff, string_eq, ◌∙◌}
use talkertive_chat_app.Schema.{User}
use talkertive_chat_app.World.{World, Clients, Fresh, is_ok}
use talkertive_chat_app.Users.{UpdateUserDto, find_user, update_me, apply_update}
use talkertive_chat_app.Users.Access.{update_me_iff}
use talkertive_chat_app.Api.{
  AdminRoute, member, admin, users, update_user, handle, handle_admin, answered,
}
use talkertive_chat_app.Api.Access.{handle_lem, answered-world}

module _ (p : Clients) where
  -- Whoever has an account can become an administrator: a request that updates the own account with
  -- a body that also holds the role ADMIN succeeds, and from then on each handler of the
  -- administrator is carried out for this user.
  pub update_user-escalates :
      (e e' : Fresh) (u : String) (x : User) (d : UpdateUserDto) (a : AdminRoute) (w : World)
      → find_user p u w ≡ some x
      → d.role ≡ some "ADMIN"
      → let (res, w') = handle p e (some u) (member (users (update_user u d))) w in
        (is_ok res ≡ true) × (handle p e' (some u) (admin a) w' ≡ handle_admin p e' a w')
  unfolding handle
  update_user-escalates e e' u x d a w known role =
      let (same, done) = answered-world (update_me p u u d) w in
      let (went, read) = update_me_iff p u u u d w in
      let w' = (answered (update_me p u u d) w).1 in
      let found : find_user p u w' ≡ some (apply_update d x) =
        ap (find_user p u) same ∙ ground (arith, read, id_iff u u) in
      (
        done ∙ ground (arith, went, id_iff u u),
        (handle_lem p e' (users (update_user u d)) a u w').3 (apply_update d x) found
            (ground arith),
      )
