-- ===== src/Rooms/GroupDeletion.antt =====
-- Who deletes a group room, and what is then left of it.
use talkertive_chat_app.Base.{
  ℕ, String, true, false, ◌≡◌, some, arith, inl, inr, Option-cases, Bool-cases, refl, subst, ap,
  ◌⊎◌,
}
use talkertive_chat_app.Schema.{Room, RoomMember}
use talkertive_chat_app.World.{World, Clients, Action, is_ok, both, delete_room_row, modify, ◌>>◌}
use talkertive_chat_app.World.Keeps.{Result-cases}
use talkertive_chat_app.RoomMembers.{find_member, holds_owner}
use talkertive_chat_app.Media.{delete_if_exists, cover_of, profile_image_of}
use talkertive_chat_app.Rooms.{delete_group_room}
use talkertive_chat_app.Rooms.Keys.{room_detail_key}
use talkertive_chat_app.Rooms.Queries.{find_one_group_room}
use talkertive_chat_app.Rooms.Deletion.{IsErased, delete_room_row-IsErased}

-- Where a chain of three succeeds, so does the second, and the third has the last word.
pub chain_ok :
    (m : Action (Unit {0})) (d : Action Room) (g : World → World) (w : World)
    → is_ok ((m >> (d >> modify g)) w).0 ≡ true
    → (is_ok (d (m w).1).0 ≡ true) × (((m >> (d >> modify g)) w).1 ≡ g (d (m w).1).1)
chain_ok m d g w done = elim (Result-cases (m w).0) [
  | inr (x, failed) ↦ absurd (ground arith)
  | inl (u, q) ↦ elim (Result-cases (d (m w).1).0) [
    | inr (x, failed) ↦ absurd (ground arith)
    | inl (r, q') ↦ (ground arith, ground arith)
  ]
]

module _ (p : Clients) where
  abbrev pub forget_detail : String → World → World
  forget_detail room_id w = record w { cache = p.cache.del (room_detail_key room_id) w.cache }

  abbrev pub erase_images : String → World → Action (Unit {0})
  erase_images room_id w =
      let room = p.room.find_unique room_id w.rooms in
      both (delete_if_exists p (cover_of room)) (delete_if_exists p (profile_image_of room))

  -- The part of `deleteGroupRoom` behind its guards.
  delete_group_room_eq :
      (user_id room_id : String) (w : World) (m : RoomMember)
      → find_member p room_id user_id w ≡ some m
      → holds_owner (some m) ≡ true
      → delete_group_room p user_id room_id w
        ≡ (erase_images room_id w >> (delete_room_row p room_id >> modify (forget_detail room_id)))
            w
  unfolding delete_group_room
  delete_group_room_eq user_id room_id w m q own = rw (q, own) refl

  delete_group_room_refused :
      (user_id room_id : String) (w : World)
      → holds_owner (find_member p room_id user_id w) ≡ false
      → (is_ok (delete_group_room p user_id room_id w).0 ≡ false)
        × ((delete_group_room p user_id room_id w).1 ≡ w)
  unfolding delete_group_room
  delete_group_room_refused user_id room_id w h =
      elim (Option-cases (find_member p room_id user_id w)) [
        | inl missing ↦ rw missing (refl, refl)
        | inr (m, q) ↦ rw (q, own m q) (refl, refl)
      ]
    where
      own :
          (m : RoomMember) → find_member p room_id user_id w ≡ some m → holds_owner (some m) ≡ false
      own m q = subst (λ x. holds_owner x ≡ false) q h

  erased-find_one :
      (now : ℕ) (room_id : String) (w : World)
      → IsErased p room_id w
      → is_ok (find_one_group_room p now room_id (forget_detail room_id w)).0 ≡ false
  unfolding find_one_group_room
  erased-find_one now room_id w erased =
      ground (arith, p.cache.get-del_self now (room_detail_key room_id) w.cache, erased.0)

  -- A group room is deleted for one whose row says owner, and for nobody else: a refusal changes
  -- nothing. Where the deletion succeeds every row of the room is gone, and so is the copy of its
  -- page, so that the next reader does not find the room.
  delete_group_room_lem :
      (now : ℕ) (user_id room_id : String) (w : World)
      → let (res, w') = delete_group_room p user_id room_id w in
        (holds_owner (find_member p room_id user_id w) ≡ false → (is_ok res ≡ false) × (w' ≡ w))
        × (is_ok res ≡ true
            → IsErased p room_id w' × (is_ok (find_one_group_room p now room_id w').0 ≡ false))
  delete_group_room_lem now user_id room_id w = (
    delete_group_room_refused user_id room_id w,
    λ done. elim (Bool-cases (holds_owner (find_member p room_id user_id w))) [
      | inr refused ↦ absurd (ground (arith, delete_group_room_refused user_id room_id w refused))
      | inl own ↦ elim (Option-cases (find_member p room_id user_id w)) [
        | inl missing ↦ absurd (ground arith)
        | inr (m, q) ↦
            let e =
              delete_group_room_eq user_id room_id w m q
                (subst (λ x. holds_owner x ≡ true) q own) in
            let images = erase_images room_id w in
            let (went, last) =
              chain_ok images (delete_room_row p room_id) (forget_detail room_id) w
                (subst (λ x. is_ok x.0 ≡ true) e done) in
            let erased = delete_room_row-IsErased p room_id (images w).1 went in
            rw (e, last) (erased, erased-find_one now room_id _ erased)
      ]
    ],
  )

  -- All that `deleteGroupRoom` may do.
  pub delete_group_room_writes :
      (user_id room_id : String) (w : World)
      → let w' = (delete_group_room p user_id room_id w).1 in
        (w' ≡ w)
        ⊎ (w'
            ≡ ((erase_images room_id w
                  >> (delete_room_row p room_id >> modify (forget_detail room_id)))
                w).1)
  delete_group_room_writes user_id room_id w =
      elim (Bool-cases (holds_owner (find_member p room_id user_id w))) [
        | inr refused ↦ inl (delete_group_room_refused user_id room_id w refused).1
        | inl own ↦ elim (Option-cases (find_member p room_id user_id w)) [
          | inl missing ↦ absurd (ground arith)
          | inr (m, q) ↦ inr (
              ap (λ x. x.1)
                (delete_group_room_eq user_id room_id w m q
                  (subst (λ x. holds_owner x ≡ true) q own)))
        ]
      ]
