-- ===== src/Users/Access.antt =====
-- Whose data a user may change, and whom the guard of the roles lets through.
use mathlib.Core.Option
use talkertive_chat_app.Base.{
  String, true, ◌&&◌, ◌≡◌, ◌↔◌, refl, none, some, List, [], ◌∷◌, In, arith, id_iff, is_some, ◌==◌,
  string_eq, if◌then◌else◌, inl, inr, Option-cases,
}
use talkertive_chat_app.Schema.{User}
use talkertive_chat_app.World.{World, Clients, ok, is_ok}
use talkertive_chat_app.Users.{
  update_me, find_user, apply_update, UpdateUserDto, can_activate, includes,
}

includes_iff : (roles : List String) (role : String) → (includes roles role ≡ true) ↔ In role roles
includes_iff [] role = (λ h. ground arith, λ h. absurd h)
includes_iff (r ∷ rs) role =
    let ih = includes_iff rs role in
    (λ h. ground (arith, id_iff r role, ih), λ h. ground (arith, id_iff r role, ih))

module _ (p : Clients) where
  -- An update of a user's data succeeds exactly where users update themselves and exist, and
  -- rewrites the fields that the body holds in that one row.
  pub update_me_iff :
      (requester target j : String) (d : UpdateUserDto) (w : World)
      → let (res, w') = update_me p requester target d w in
        (is_ok res ≡ (requester == target && is_some (find_user p target w)))
        × (find_user p j w' ≡ (
            if requester == target && target == j
            then Option.map (apply_update d) (find_user p j w)
            else find_user p j w))
  unfolding update_me
  update_me_iff requester target j d w = elim (Option-cases (find_user p target w)) [
    | inl missing ↦ (ground arith, ground (arith, id_iff target j))
    | inr (u, q) ↦ (
      ground arith,
      ground (
        arith,
        id_iff target j,
        p.user.find-update target (apply_update d) w.users j u q (p.user.find-key q),
      ),
    )
  ]

  -- The guard lets a request pass exactly where the handler requires no role, or the role of the
  -- stored user, not of the token, is among those that it requires; and it changes nothing.
  pub can_activate_iff :
      (roles : List String) (sub : String) (w : World)
      → (can_activate p none sub w ≡ (ok true, w))
        × ((can_activate p (some roles) sub w).1 ≡ w)
        × ((is_ok (can_activate p (some roles) sub w).0 ≡ true)
            ↔ ((u : User) × (find_user p sub w ≡ some u) × In u.role roles))
  unfolding can_activate
  can_activate_iff roles sub w =
      (refl, ground arith, (λ h. passes h, λ h. ground (arith, includes_iff roles h.0.role)))
    where
      passes :
          is_ok (can_activate p (some roles) sub w).0 ≡ true
          → (u : User) × (find_user p sub w ≡ some u) × In u.role roles
      passes h = elim (Option-cases (find_user p sub w)) [
        | inl missing ↦ absurd (ground arith)
        | inr (u, q) ↦ (u, q, (includes_iff roles u.role).0 (ground arith))
      ]
