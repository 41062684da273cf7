-- ===== src/Rooms/Creation.antt =====
-- Who is in a new room, and who owns it.
use talkertive_chat_app.Base.{
  String, true, false, ◌≡◌, refl, none, List, arith, id_iff, ◌==◌, string_eq, inl, inr, ◌⊎◌,
  Bool-cases, pair_eq,
}
use talkertive_chat_app.Schema.{RoomMember, owner, member}
use talkertive_chat_app.World.{World, Clients, Fresh, ok, is_ok, create_room, create_member}
use talkertive_chat_app.RoomMembers.{find_member, new_member}
use talkertive_chat_app.RoomMembers.Ownership.{OwnedBy}
use talkertive_chat_app.Rooms.{
  create_group_room, create_direct_room, CreateGroupRoomDto, group_room, slug_of, child,
}

module _ (p : Clients) where
  -- All that `createGroupRoom` may do to the tables.
  pub create_group_room_writes :
      (e : Fresh) (user_id : String) (d : CreateGroupRoomDto) (w : World)
      → let (res, w') = create_group_room p e user_id d w in
        let room = group_room e (slug_of p e d.name) d in
        let row = new_member (child e 0) e.id user_id none owner in
        ((is_ok res ≡ false) × (w' ≡ w))
        ⊎ (res ≡ ok room)
          × (p.room.admits room w.rooms ≡ true)
          × (p.room_member.admits row w.room_members ≡ true)
          × (w'.rooms ≡ p.room.create room w.rooms)
          × (w'.room_members ≡ p.room_member.create row w.room_members)
  unfolding create_group_room create_room create_member
  create_group_room_writes e user_id d w = ground arith

  -- A row of another room changes nothing for this one.
  pub create_other-OwnedBy :
      (t : List RoomMember) (m : RoomMember) (r u : String)
      → p.room_member.admits m t ≡ true
      → (m.room_id == r) ≡ false
      → OwnedBy p t r u
      → OwnedBy p (p.room_member.create m t) r u
  create_other-OwnedBy t m r u admitted other o = record {
    row = o.row;
    found = ground (arith, p.room_member.find-create m t (r, u) admitted, o.found);
    owns = o.owns;
    active = o.active;
    alone = λ v x h own. ground (arith, p.room_member.find-create m t (r, v) admitted, o.alone v x);
  }

  -- Where a group room is made, and nobody had a row for its new identifier, its maker owns it
  -- alone, and every other room has the owner that it had. Where it is not made, nothing is
  -- stored, neither the room nor the member.
  pub create_group_room-OwnedBy :
      (e : Fresh) (user_id : String) (d : CreateGroupRoomDto) (w : World)
      → ((v : String) → find_member p e.id v w ≡ none)
      → let (res, w') = create_group_room p e user_id d w in
        (is_ok res ≡ false → w' ≡ w)
        × (is_ok res ≡ true → OwnedBy p w'.room_members e.id user_id)
        × ((r u : String)
            → (e.id == r) ≡ false
            → OwnedBy p w.room_members r u
            → OwnedBy p w'.room_members r u)
  create_group_room-OwnedBy e user_id d w unused =
      let row = new_member (child e 0) e.id user_id none owner in
      elim (create_group_room_writes e user_id d w) [
        | inl (failed, same) ↦ (λ _. same, λ done. absurd (ground arith), λ r u ne o. rw same o)
        | inr (done, new_room, admitted, rooms, members) ↦ (
          λ failed. absurd (ground arith),
          λ _.
              let read =
                λ (v : String). p.room_member.find-create row w.room_members (e.id, v) admitted in
              rw members (record {
                row = row;
                found = ground (arith, read user_id, id_iff e.id e.id, id_iff user_id user_id);
                owns = refl;
                active = refl;
                alone = λ v x h own. ground (arith, read v, unused v, id_iff user_id v);
              }),
          λ r u ne o. rw members (create_other-OwnedBy w.room_members row r u admitted ne o),
        )
      ]

  -- A direct room with oneself is never made, and nothing is stored: the second member row would
  -- have the key of the first.
  create_direct_room_self :
      (e : Fresh) (user_id : String) (w : World)
      → (is_ok (create_direct_room p e user_id user_id w).0 ≡ false)
        × ((create_direct_room p e user_id user_id w).1 ≡ w)
  unfolding create_direct_room create_room create_member
  create_direct_room_self e user_id w =
      let one = new_member (child e 0) e.id user_id none member in
      let two = new_member (child e 1) e.id user_id none member in
      elim (Bool-cases (p.room_member.admits one w.room_members)) [
        | inl admitted ↦
            let taken = p.room_member.find-create one w.room_members (e.id, user_id) admitted in
            let free = p.room_member.find-admits two (p.room_member.create one w.room_members) in
            (
              ground (arith, taken, free, id_iff e.id e.id, id_iff user_id user_id),
              ground (arith, taken, free, id_iff e.id e.id, id_iff user_id user_id),
            )
        | inr refused ↦ (ground arith, ground arith)
      ]
