-- ===== src/Api/Access.antt =====
-- Who gets past the guards of the controllers.
use talkertive_chat_app.Base.{
  String, false, ◌≡◌, ◌≢◌, refl, sym, ap, ◌∙◌, none, some, [], ◌∷◌, arith, inl, inr,
}
use talkertive_chat_app.Schema.{User}
use talkertive_chat_app.World.{
  World, Clients, Fresh, Action, Result, ok as good, err, is_ok, unauthorized, ◌>>=◌,
}
use talkertive_chat_app.World.Keeps.{Result-cases}
use talkertive_chat_app.Users.{find_user, can_activate}
use talkertive_chat_app.Users.Access.{can_activate_iff}
use talkertive_chat_app.Api.{MemberRoute, AdminRoute, member, admin, handle, handle_admin, answered}

module _ {A : Type 0} where
  -- A handler that leaves its service's result out ends as the service does.
  pub answered-world :
      (m : Action A) (w : World)
      → ((answered m w).1 ≡ (m w).1) × (is_ok (answered m w).0 ≡ is_ok (m w).0)
  answered-world m w = elim (Result-cases (m w).0) [
    | inl (x, q) ↦ (ground arith, ground arith)
    | inr (x, q) ↦ (ground arith, ground arith)
  ]

module _ {A B : Type 0} where
  bind-ok :
      (m : Action A) (f : A → Action B) (w : World) (a : A)
      → (m w).0 ≡ good a
      → (m >>= f) w ≡ f a (m w).1
  bind-ok m f w a q =
      ap
        (λ r. elim r as (λ (_ : Result A). Result B × World) [
          | good b ↦ f b (m w).1
          | err x ↦ (err x, (m w).1)
        ])
        q

module _ (p : Clients) (e : Fresh) where
  -- Without a token that verifies, a request to a handler behind a guard is refused and changes
  -- nothing. A request to a handler of the administrator is carried out exactly where the stored
  -- user of the token has the role ADMIN, and is refused and changes nothing where not, whatever the
  -- token says.
  pub handle_lem :
      (m : MemberRoute) (a : AdminRoute) (sub : String) (w : World)
      → (handle p e none (member m) w ≡ (err unauthorized, w))
        × (handle p e none (admin a) w ≡ (err unauthorized, w))
        × (((u : User) → find_user p sub w ≡ some u → u.role ≢ "ADMIN")
            → (is_ok (handle p e (some sub) (admin a) w).0 ≡ false)
              × ((handle p e (some sub) (admin a) w).1 ≡ w))
        × ((u : User)
            → find_user p sub w ≡ some u
            → u.role ≡ "ADMIN"
            → handle p e (some sub) (admin a) w ≡ handle_admin p e a w)
  unfolding handle
  handle_lem m a sub w =
      let (_, same, iff) = can_activate_iff p ("ADMIN" ∷ []) sub w in
      (
        refl,
        refl,
        λ other. elim (Result-cases (can_activate p (some ("ADMIN" ∷ [])) sub w).0) [
          | inr (x, refused) ↦ (ground (arith, same), ground (arith, same))
          | inl (b, passed) ↦
              let (u, found, role) = iff.0 (ground arith) in
              absurd (elim role [ inl r ↦ other u found (sym r) | inr r ↦ r ])
        ],
        λ u found role.
            let passed = iff.1 (u, found, inl (sym role)) in
            elim (Result-cases (can_activate p (some ("ADMIN" ∷ [])) sub w).0) [
              | inl (b, ok) ↦
                  bind-ok (can_activate p (some ("ADMIN" ∷ [])) sub) (λ _. handle_admin p e a) w b
                    ok
                  ∙ ap (handle_admin p e a) same
              | inr (x, refused) ↦ absurd (ground arith)
            ],
      )
