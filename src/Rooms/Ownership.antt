-- ===== src/Rooms/Ownership.antt =====
-- What the methods of `RoomsService` do to the ownership of rooms.
use talkertive_chat_app.Base.{Option, String, ◌≡◌, refl, none, inl, inr, ◌⊎◌, arith}
use talkertive_chat_app.Schema.{Room, member}
use talkertive_chat_app.World.{
  World, Clients, Fresh, Action, pure, transaction, ◌>>=◌, ◌>>◌, modify, create_room, create_member,
  update_room, delete_room_row,
}
use talkertive_chat_app.World.Preserves.{
  Preserves, then-Preserves, bind-Preserves, transaction-Preserves, both-Preserves,
}
use talkertive_chat_app.RoomMembers.{new_member}
use talkertive_chat_app.Media.{delete_if_exists, cover_of, profile_image_of}
use talkertive_chat_app.Media.Commands.{delete_if_exists-Keeps}
use talkertive_chat_app.Rooms.{
  UpdateGroupRoomDto, create_direct_room, update_group_room, delete_group_room, delete_direct_room,
  apply_update, direct_room, child,
}
use talkertive_chat_app.Rooms.GroupDeletion.{delete_group_room_writes, erase_images, forget_detail}
use talkertive_chat_app.Rooms.Upkeep.{
  HasOwners, tables, tables-Preserves, same-Preserves, update_room-HasOwners,
  delete_room_row-HasOwners, create_room-HasOwners, create_member-HasOwners,
}

module _ (p : Clients) where
  -- The transaction of `createDirectRoom`.
  abbrev new_direct_room : Fresh → String → String → Action Room
  new_direct_room e user_id target_id = create_room p (direct_room e) >>= λ room.
      create_member p (new_member (child e 0) room.id user_id none member)
      >> (create_member p (new_member (child e 1) room.id target_id none member) >> pure room)

  create_direct_room_writes :
      (e : Fresh) (user_id target_id : String) (w : World)
      → let w' = (create_direct_room p e user_id target_id w).1 in
        (w' ≡ w) ⊎ (w' ≡ (transaction (new_direct_room e user_id target_id) w).1)
  unfolding create_direct_room
  create_direct_room_writes e user_id target_id w = ground arith

  new_direct_room-HasOwners :
      (e : Fresh) (user_id target_id : String)
      → Preserves (HasOwners p) (new_direct_room e user_id target_id)
  new_direct_room-HasOwners e user_id target_id =
      let Q = HasOwners p in
      let one = λ (room : Room). new_member (child e 0) room.id user_id none member in
      let two = λ (room : Room). new_member (child e 1) room.id target_id none member in
      bind-Preserves Q (create_room p (direct_room e))
        (λ room. create_member p (one room) >> (create_member p (two room) >> pure room))
        (create_room-HasOwners p (direct_room e) refl)
        (λ room.
          then-Preserves Q (create_member p (one room)) (create_member p (two room) >> pure room)
            (create_member-HasOwners p (one room) refl)
            (then-Preserves Q (create_member p (two room)) (pure room)
              (create_member-HasOwners p (two room) refl) (λ w h. h)))

  pub create_direct_room-HasOwners :
      (e : Fresh) (user_id target_id : String)
      → Preserves (HasOwners p) (create_direct_room p e user_id target_id)
  create_direct_room-HasOwners e user_id target_id w h =
      elim (create_direct_room_writes e user_id target_id w) [
        | inl same ↦ rw same h
        | inr written ↦ rw written (
            transaction-Preserves (HasOwners p) (new_direct_room e user_id target_id)
              (new_direct_room-HasOwners e user_id target_id) w h)
      ]

  update_group_room_writes :
      (user_id room_id : String) (d : UpdateGroupRoomDto) (w : World)
      → let w' = (update_group_room p user_id room_id d w).1 in
        (tables w' ≡ tables w) ⊎ (tables w' ≡ tables (update_room p room_id (apply_update d) w).1)
  unfolding update_group_room
  update_group_room_writes user_id room_id d w = ground arith

  pub update_group_room-HasOwners :
      (user_id room_id : String) (d : UpdateGroupRoomDto)
      → Preserves (HasOwners p) (update_group_room p user_id room_id d)
  update_group_room-HasOwners user_id room_id d w =
      same-Preserves p (update_group_room p user_id room_id d)
        (update_room p room_id (apply_update d)) w (update_group_room_writes user_id room_id d w)
        (update_room-HasOwners p room_id (apply_update d) (λ r. refl) (λ r. refl))

  pub delete_group_room-HasOwners :
      (user_id room_id : String) → Preserves (HasOwners p) (delete_group_room p user_id room_id)
  delete_group_room-HasOwners user_id room_id w h =
      elim (delete_group_room_writes p user_id room_id w) [
        | inl same ↦ rw same h
        | inr written ↦ rw written (
            then-Preserves (HasOwners p) (erase_images p room_id w)
              (delete_room_row p room_id >> modify (forget_detail p room_id))
              (both-Preserves (HasOwners p) (erase cover_of) (erase profile_image_of)
                (erased cover_of) (erased profile_image_of))
              (then-Preserves (HasOwners p) (delete_room_row p room_id)
                (modify (forget_detail p room_id)) (delete_room_row-HasOwners p room_id) (λ v k. k))
              w h)
      ]
    where
      erase : (Option Room → Option String) → Action (Unit {0})
      erase f = delete_if_exists p (f (p.room.find_unique room_id w.rooms))

      erased : (f : Option Room → Option String) → Preserves (HasOwners p) (erase f)
      erased f =
          tables-Preserves p (erase f)
            (delete_if_exists-Keeps p tables (λ v s. refl) (f (p.room.find_unique room_id w.rooms)))

  delete_direct_room_writes :
      (user_id room_id : String) (w : World)
      → let w' = (delete_direct_room p user_id room_id w).1 in
        (w' ≡ w) ⊎ (w' ≡ (delete_room_row p room_id w).1)
  unfolding delete_direct_room
  delete_direct_room_writes user_id room_id w = ground arith

  pub delete_direct_room-HasOwners :
      (user_id room_id : String) → Preserves (HasOwners p) (delete_direct_room p user_id room_id)
  delete_direct_room-HasOwners user_id room_id w h =
      elim (delete_direct_room_writes user_id room_id w) [
        | inl same ↦ rw same h
        | inr written ↦ rw written (delete_room_row-HasOwners p room_id w h)
      ]
