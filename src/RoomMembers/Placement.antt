-- ===== src/RoomMembers/Placement.antt =====
-- Every member row is of a room that is there, whatever is requested.
use talkertive_chat_app.Base.{
  String, true, ◌≡◌, none, some, List, arith, id_iff, is_some, some_of_is_some, string_eq, inl, inr,
  pair_eq,
}
use talkertive_chat_app.Schema.{Room, RoomMember, owner, member}
use talkertive_chat_app.World.{World, Clients, Fresh, member_key}
use talkertive_chat_app.RoomMembers.{
  find_member, new_member, invite_member, remove_member, transfer_owner, set_left_at, rejoin,
}
use talkertive_chat_app.RoomMembers.Ownership.{invite_member_writes, remove_member_writes}
use talkertive_chat_app.RoomMembers.Transfer.{transfer_owner_writes, swapped-find}
use talkertive_chat_app.Rooms.{create_group_room, CreateGroupRoomDto, group_room, slug_of, child}
use talkertive_chat_app.Rooms.Creation.{create_group_room_writes}

-- Every member row is of a room that is there.
abbrev pub IsPlaced : (p : Clients) → List Room → List RoomMember → Type 0
IsPlaced p rooms t =
    (r v : String) (m : RoomMember)
    → p.room_member.find_unique (r, v) t ≡ some m
    → is_some (p.room.find_unique r rooms) ≡ true

module _ (p : Clients) where
  pub update-IsPlaced :
      (rooms : List Room) (t : List RoomMember) (room_id target : String)
      (f : RoomMember → RoomMember) (m : RoomMember)
      → p.room_member.find_unique (room_id, target) t ≡ some m
      → member_key (f m) ≡ (room_id, target)
      → IsPlaced p rooms t
      → IsPlaced p rooms (p.room_member.update (room_id, target) f t)
  update-IsPlaced rooms t room_id target f m q k placed r v x h = ground (
    arith,
    id_iff room_id r,
    id_iff target v,
    placed room_id target m q,
    placed r v x,
    p.room_member.find-update (room_id, target) f t (r, v) m q k,
  )

  pub rooms_kept :
      (e : Fresh) (requester room_id target : String) (w : World)
      → ((invite_member p e requester room_id target w).1.rooms ≡ w.rooms)
        × ((remove_member p e requester room_id target w).1.rooms ≡ w.rooms)
  unfolding invite_member remove_member
  rooms_kept e requester room_id target w = (ground arith, ground arith)

  pub transfer_owner-rooms :
      (requester room_id target : String) (w : World)
      → (transfer_owner p requester room_id target w).1.rooms ≡ w.rooms
  unfolding transfer_owner
  transfer_owner-rooms requester room_id target w = ground arith

  pub invite_member-IsPlaced :
      (e : Fresh) (requester room_id target : String) (w : World)
      → IsPlaced p w.rooms w.room_members
      → IsPlaced p w.rooms (invite_member p e requester room_id target w).1.room_members
  invite_member-IsPlaced e requester room_id target w placed =
      let row = new_member e room_id target (some requester) member in
      elim (invite_member_writes p e requester room_id target w) [
        | inl same ↦ rw same placed
        | inr (inl (admitted, known, created)) ↦ rw created (λ r v x h. ground (
          arith,
          id_iff room_id r,
          placed r v x,
          p.room_member.find-create row w.room_members (r, v) admitted,
        ))
        | inr (inr (found, updated)) ↦
            let (m, q) = some_of_is_some (find_member p room_id target w) found in
            rw updated (
              update-IsPlaced w.rooms w.room_members room_id target (rejoin requester) m q
                (p.room_member.find-key q) placed)
      ]

  pub remove_member-IsPlaced :
      (e : Fresh) (requester room_id target : String) (w : World)
      → IsPlaced p w.rooms w.room_members
      → IsPlaced p w.rooms (remove_member p e requester room_id target w).1.room_members
  remove_member-IsPlaced e requester room_id target w placed =
      elim (remove_member_writes p e requester room_id target w) [
        | inl same ↦ rw same placed
        | inr (one, present, updated) ↦
            let (m, q) = some_of_is_some (find_member p room_id target w) (ground arith) in
            rw updated (
              update-IsPlaced w.rooms w.room_members room_id target (set_left_at (some e.now)) m q
                (p.room_member.find-key q) placed)
      ]

  pub transfer_owner-IsPlaced :
      (requester room_id target : String) (w : World)
      → IsPlaced p w.rooms w.room_members
      → IsPlaced p w.rooms (transfer_owner p requester room_id target w).1.room_members
  transfer_owner-IsPlaced requester room_id target w placed =
      elim (transfer_owner_writes p requester room_id target w) [
        | inl (failed, same) ↦ rw same placed
        | inr (done, ne, pr, hr, pt, written) ↦
            let (m, qm) = some_of_is_some (find_member p room_id requester w) (ground arith) in
            let (n, qn) = some_of_is_some (find_member p room_id target w) (ground arith) in
            rw written (λ r v x h. ground (
              arith,
              id_iff room_id r,
              placed room_id requester m qm,
              placed r v x,
              swapped-find p w.room_members room_id requester target r v m n ne qm qn,
            ))
      ]

  pub create_group_room-IsPlaced :
      (e : Fresh) (user_id : String) (d : CreateGroupRoomDto) (w : World)
      → IsPlaced p w.rooms w.room_members
      → IsPlaced p
          (create_group_room p e user_id d w).1.rooms
          (create_group_room p e user_id d w).1.room_members
  create_group_room-IsPlaced e user_id d w placed =
      let room = group_room e (slug_of p e d.name) d in
      let row = new_member (child e 0) e.id user_id none owner in
      elim (create_group_room_writes p e user_id d w) [
        | inl (failed, same) ↦ rw same placed
        | inr (done, new_room, admitted, rooms, members) ↦
            rw (rooms, members)
              (λ r v x h. ground (
                arith,
                id_iff e.id r,
                placed r v x,
                p.room_member.find-create row w.room_members (r, v) admitted,
                p.room.find-create room w.rooms r new_room,
              ))
      ]
