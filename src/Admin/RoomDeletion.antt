-- ===== src/Admin/RoomDeletion.antt =====
-- What is left of a room that an administrator deletes.
use talkertive_chat_app.Base.{
  ℕ, String, true, ◌≡◌, some, arith, refl, inl, inr, Option-cases, subst,
}
use talkertive_chat_app.Schema.{Room}
use talkertive_chat_app.World.{World, Clients, Cached, ok, is_ok, delete_room_row, ◌>>◌}
use talkertive_chat_app.World.Keeps.{Keeps}
use talkertive_chat_app.Rooms.Keys.{room_detail_key}
use talkertive_chat_app.Rooms.Queries.{find_one_group_room}
use talkertive_chat_app.Rooms.Deletion.{IsErased, delete_room_row-IsErased}
use talkertive_chat_app.Rooms.GroupDeletion.{chain_ok, erase_images}
use talkertive_chat_app.Admin.{delete_room}

module _ (p : Clients) where
  delete_room-Keeps : (id : String) → Keeps (λ w. w.cache) (delete_room p id)
  unfolding delete_room
  delete_room-Keeps id w = ground arith

  -- The part of `deleteRoom` behind its guard.
  delete_room_eq :
      (id : String) (w : World) (r : Room)
      → p.room.find_unique id w.rooms ≡ some r
      → delete_room p id w ≡ (erase_images p id w >> (delete_room_row p id >> (λ v. (ok tt, v)))) w
  unfolding delete_room
  delete_room_eq id w r q = rw q refl

  delete_room-IsErased :
      (id : String) (w : World)
      → is_ok (delete_room p id w).0 ≡ true
      → IsErased p id (delete_room p id w).1
  unfolding delete_room
  delete_room-IsErased id w done = elim (Option-cases (p.room.find_unique id w.rooms)) [
    | inl missing ↦ absurd (ground arith)
    | inr (r, q) ↦
        let e = delete_room_eq id w r q in
        let images = erase_images p id w in
        let (went, last) =
          chain_ok images (delete_room_row p id) (λ v. v) w
            (subst (λ x. is_ok x.0 ≡ true) e done) in
        rw (e, last) (delete_room_row-IsErased p id (images w).1 went)
  ]

  served :
      (now : ℕ) (id : String) (w v : World) (c : Cached)
      → v.cache ≡ w.cache
      → p.cache.get now (room_detail_key id) w.cache ≡ some c
      → (find_one_group_room p now id v).0 ≡ ok c
  unfolding find_one_group_room
  served now id w v c same hit = ground (arith, same)

  -- Where an administrator's deletion of a room succeeds, every row of the room is gone. A copy of
  -- its page that is in the cache stays there: while it lives, readers are given the page of the
  -- deleted room.
  pub delete_room_served :
      (now : ℕ) (id : String) (w : World)
      → is_ok (delete_room p id w).0 ≡ true
      → let w' = (delete_room p id w).1 in
        IsErased p id w'
        × ((c : Cached)
            → p.cache.get now (room_detail_key id) w.cache ≡ some c
            → (find_one_group_room p now id w').0 ≡ ok c)
  delete_room_served now id w done = (
    delete_room-IsErased id w done,
    λ c. served now id w (delete_room p id w).1 c (delete_room-Keeps id w),
  )
