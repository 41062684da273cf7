-- ===== src/RoomMembers/Lifecycle.antt =====
-- Rooms over time: any sequence of requests that make group rooms, invite, remove and hand over.
use talkertive_chat_app.Base.{
  String, true, ◌≡◌, refl, none, some, arith, id_iff, ◌==◌, string_eq, inl, inr, Option-cases,
  Bool-cases, pair_eq,
}
use talkertive_chat_app.Schema.{Room}
use talkertive_chat_app.World.{World, Clients, Fresh}
use talkertive_chat_app.RoomMembers.{find_member, invite_member, remove_member, transfer_owner}
use talkertive_chat_app.RoomMembers.Ownership.{
  OwnedBy, invite_member-OwnedBy, remove_member-OwnedBy,
}
use talkertive_chat_app.RoomMembers.Transfer.{transfer_owner-OwnedBy}
use talkertive_chat_app.Rooms.{create_group_room, CreateGroupRoomDto, group_room, slug_of}
use talkertive_chat_app.Rooms.Kinds.{is_group}
use talkertive_chat_app.Rooms.Creation.{create_group_room_writes, create_group_room-OwnedBy}
use talkertive_chat_app.RoomMembers.Placement.{
  IsPlaced, rooms_kept, transfer_owner-rooms, invite_member-IsPlaced, remove_member-IsPlaced,
  transfer_owner-IsPlaced, create_group_room-IsPlaced,
}

-- One request, whether it succeeds or throws.
pub data Step (p : Clients) : World → World → Type 0 where
  made :
      (e : Fresh) (user_id : String) (d : CreateGroupRoomDto) (w : World)
      → Step p w (create_group_room p e user_id d w).1
  invited :
      (e : Fresh) (requester room_id target : String) (w : World)
      → Step p w (invite_member p e requester room_id target w).1
  removed :
      (e : Fresh) (requester room_id target : String) (w : World)
      → Step p w (remove_member p e requester room_id target w).1
  handed_over :
      (requester room_id target : String) (w : World)
      → Step p w (transfer_owner p requester room_id target w).1

pub data Reach (p : Clients) : World → World → Type 0 where
  here : (w : World) → Reach p w w
  after : (u v w : World) → Reach p u v → Step p v w → Reach p u w

-- Every group room has one owner, who takes part.
abbrev pub IsOwned : (p : Clients) → World → Type 0
IsOwned p w =
    (r : String) (room : Room)
    → p.room.find_unique r w.rooms ≡ some room
    → is_group room.type ≡ true
    → (u : String) × OwnedBy p w.room_members r u

module _ (p : Clients) where
  create_group_room-IsOwned :
      (e : Fresh) (user_id : String) (d : CreateGroupRoomDto) (w : World)
      → IsPlaced p w.rooms w.room_members
      → IsOwned p w
      → IsOwned p (create_group_room p e user_id d w).1
  create_group_room-IsOwned e user_id d w placed owned =
      let room = group_room e (slug_of p e d.name) d in
      elim (create_group_room_writes p e user_id d w) [
        | inl (failed, same) ↦ rw same owned
        | inr (done, new_room, admitted, rooms, members) ↦
            let free = p.room.find-admits room w.rooms new_room in
            let unused : (v : String) → find_member p e.id v w ≡ none = λ v.
              elim (Option-cases (find_member p e.id v w)) [
                | inl missing ↦ missing
                | inr (m, q) ↦ absurd (ground (arith, placed e.id v m q, free))
              ] in
            let (kept, mine, others) = create_group_room-OwnedBy p e user_id d w unused in
            λ r x q g. elim (Bool-cases (e.id == r)) [
              | inl same ↦ (user_id, rw (← (id_iff e.id r).0 same) (mine (rw done refl)))
              | inr other ↦
                  let (u, o) =
                    owned r x (ground (arith, rooms, p.room.find-create room w.rooms r new_room))
                      g in
                  (u, others r u other o)
            ]
      ]

  -- Each request keeps every group room in the hands of one owner.
  pub step_lem :
      (v w : World)
      → Step p v w
      → IsPlaced p v.rooms v.room_members × IsOwned p v
      → IsPlaced p w.rooms w.room_members × IsOwned p w
  step_lem _ _ (made e user_id d v) (placed, owned) = (
    create_group_room-IsPlaced p e user_id d v placed,
    create_group_room-IsOwned e user_id d v placed owned,
  )
  step_lem _ _ (invited e a r t v) (placed, owned) =
      let same = (rooms_kept p e a r t v).0 in
      (
        rw same (invite_member-IsPlaced p e a r t v placed),
        λ r' x q g.
            let (u, o) = owned r' x (rw same at q) g in
            (u, invite_member-OwnedBy p e a r t v r' u o),
      )
  step_lem _ _ (removed e a r t v) (placed, owned) =
      let same = (rooms_kept p e a r t v).1 in
      (
        rw same (remove_member-IsPlaced p e a r t v placed),
        λ r' x q g.
            let (u, o) = owned r' x (rw same at q) g in
            (u, remove_member-OwnedBy p e a r t v r' u o),
      )
  step_lem _ _ (handed_over a r t v) (placed, owned) =
      let same = transfer_owner-rooms p a r t v in
      (
        rw same (transfer_owner-IsPlaced p a r t v placed),
        λ r' x q g.
            let (u, o) = owned r' x (rw same at q) g in
            (_, transfer_owner-OwnedBy p a r t v r' u o),
      )

  -- Where every member row is of a room that is there and every group room has one owner who
  -- takes part, this is so after any sequence of requests that make group rooms, invite, remove
  -- and hand over, by whomever, and whether they succeed or not.
  pub Reach-IsOwned :
      (v w : World)
      → Reach p v w
      → IsPlaced p v.rooms v.room_members
      → IsOwned p v
      → IsPlaced p w.rooms w.room_members × IsOwned p w
  Reach-IsOwned _ _ (here v) placed owned = (placed, owned)
  Reach-IsOwned _ _ (after v u w before last) placed owned =
      step_lem u w last (Reach-IsOwned v u before placed owned)
