-- ===== src/RoomMembers/Ownership.antt =====
-- Who owns a room: one active member, whatever the methods of `RoomMembersService` do.
use talkertive_chat_app.Base.{
  String, true, false, ◌≡◌, ◌≢◌, refl, none, some, ◌==◌, string_eq, pair_eq, List, if◌then◌else◌,
  arith, ◌⊎◌, inl, inr, Option-cases, Bool-cases, not, some_of_is_some, ◌&&◌, id_iff, is_some,
}
use talkertive_chat_app.Schema.{RoomMember, owner, member}
use talkertive_chat_app.World.{World, Clients, Fresh, member_key}
use talkertive_chat_app.RoomMembers.{
  find_member, invite_member, remove_member, is_gone, set_left_at, rejoin, holds_owner, new_member,
}

-- In this table the room is owned by this user, who takes part, and by nobody else.
pub record OwnedBy (p : Clients) (t : List RoomMember) (room_id user_id : String) : Type 0 where
  pub row : RoomMember
  pub found : p.room_member.find_unique (room_id, user_id) t ≡ some row
  pub owns : row.role ≡ owner
  pub active : row.left_at ≡ none
  pub alone :
      (v : String) (m : RoomMember)
      → p.room_member.find_unique (room_id, v) t ≡ some m
      → m.role ≡ owner
      → v ≡ user_id

module _ (p : Clients) where
  -- An update of one member that, in this room, keeps the role and leaves an owner active.
  pub update-OwnedBy :
      (t : List RoomMember) (r u room_id target : String) (f : RoomMember → RoomMember)
      (m : RoomMember)
      → p.room_member.find_unique (room_id, target) t ≡ some m
      → member_key (f m) ≡ (room_id, target)
      → (room_id ≡ r → (f m).role ≡ m.role)
      → (room_id ≡ r → m.role ≡ owner → (f m).left_at ≡ none)
      → OwnedBy p t r u
      → OwnedBy p (p.room_member.update (room_id, target) f t) r u
  update-OwnedBy t r u room_id target f m e k same keep o =
      elim (Bool-cases (room_id == r && target == u)) [
        | inl here ↦ record {
          row = f m;
          found = ground (arith, written u);
          owns = ground (arith, id_iff room_id r, id_iff target u);
          active = ground (arith, id_iff room_id r, id_iff target u, keep);
          alone = λ v x h own.
              ground
                (arith, id_iff room_id r, id_iff target u, id_iff target v, written v, o.alone v x);
        }
        | inr other ↦ record {
          row = o.row;
          found = ground (arith, written u);
          owns = o.owns;
          active = o.active;
          alone = λ v x h own. ground (
            arith,
            id_iff room_id r,
            id_iff target u,
            id_iff target v,
            written v,
            o.alone v x,
            o.alone v m,
          );
        }
      ]
    where
      written :
          (v : String)
          → p.room_member.find_unique (r, v) (p.room_member.update (room_id, target) f t) ≡ (
              if room_id == r && target == v
              then some (f m)
              else p.room_member.find_unique (r, v) t)
      written v = p.room_member.find-update (room_id, target) f t (r, v) m e k

  pub create-OwnedBy :
      (t : List RoomMember) (r u : String) (m : RoomMember)
      → p.room_member.admits m t ≡ true
      → m.role ≡ member
      → OwnedBy p t r u
      → OwnedBy p (p.room_member.create m t) r u
  create-OwnedBy t r u m admitted role o = record {
    row = o.row;
    found = ground (
      arith,
      added u,
      p.room_member.find-admits m t admitted,
      id_iff m.room_id r,
      id_iff m.user_id u,
    );
    owns = o.owns;
    active = o.active;
    alone = λ v x h own. ground (arith, added v, o.alone v x);
  }
    where
      added :
          (v : String)
          → p.room_member.find_unique (r, v) (p.room_member.create m t) ≡ (
              if m.room_id == r && m.user_id == v
              then some m
              else p.room_member.find_unique (r, v) t)
      added v = p.room_member.find-create m t (r, v) admitted

  -- All that `inviteMember` may do to the table.
  pub invite_member_writes :
      (e : Fresh) (requester room_id target : String) (w : World)
      → let t = w.room_members in
        let t' = (invite_member p e requester room_id target w).1.room_members in
        let row = new_member e room_id target (some requester) member in
        (t' ≡ t)
        ⊎ (p.room_member.admits row t ≡ true)
          × (is_some (p.room.find_unique room_id w.rooms) ≡ true)
          × (t' ≡ p.room_member.create row t)
        ⊎ (is_some (find_member p room_id target w) ≡ true)
          × (t' ≡ p.room_member.update (room_id, target) (rejoin requester) t)
  unfolding invite_member
  invite_member_writes e requester room_id target w = ground arith

  -- Where one user who takes part owns a room, and nobody else does, this is so after
  -- `inviteMember`, whether it succeeds or not, in this room or another.
  pub invite_member-OwnedBy :
      (e : Fresh) (requester room_id target : String) (w : World) (r u : String)
      → OwnedBy p w.room_members r u
      → OwnedBy p (invite_member p e requester room_id target w).1.room_members r u
  invite_member-OwnedBy e requester room_id target w r u o =
      elim (invite_member_writes e requester room_id target w) [
        | inl same ↦ rw same o
        | inr (inl (admitted, known, created)) ↦
            rw created (create-OwnedBy w.room_members r u _ admitted refl o)
        | inr (inr (found, updated)) ↦
            let (m, q) = some_of_is_some (find_member p room_id target w) found in
            rw updated (
              update-OwnedBy w.room_members r u room_id target (rejoin requester) m q
                (p.room_member.find-key q) (λ _. refl) (λ _ _. refl) o)
      ]

  -- All that `removeMember` may do to the table: the requester is the owner and removes another
  -- member, or a plain member who leaves.
  pub remove_member_writes :
      (e : Fresh) (requester room_id target : String) (w : World)
      → let t = w.room_members in
        let t' = (remove_member p e requester room_id target w).1.room_members in
        (t' ≡ t)
        ⊎ ((requester == target) ≡ not (holds_owner (find_member p room_id requester w)))
          × (is_gone (find_member p room_id target w) ≡ false)
          × (t' ≡ p.room_member.update (room_id, target) (set_left_at (some e.now)) t)
  unfolding remove_member
  remove_member_writes e requester room_id target w = ground arith

  -- Who may remove whom never lets an owner be removed.
  remove_spares_owner :
      (w : World) (requester room_id target u : String) (m : RoomMember)
      → OwnedBy p w.room_members room_id u
      → (requester == target) ≡ not (holds_owner (find_member p room_id requester w))
      → find_member p room_id target w ≡ some m
      → m.role ≢ owner
  remove_spares_owner w requester room_id target u m o one q own =
      elim (Option-cases (find_member p room_id requester w)) [
        | inl missing ↦ ground (arith, id_iff requester target)
        | inr (n, e) ↦
            ground (arith, id_iff requester target, o.alone target m q own, o.alone requester n e)
      ]

  -- Where one user who takes part owns a room, and nobody else does, this is so after
  -- `removeMember`, whether it succeeds or not: the owner can neither go nor be removed.
  pub remove_member-OwnedBy :
      (e : Fresh) (requester room_id target : String) (w : World) (r u : String)
      → OwnedBy p w.room_members r u
      → OwnedBy p (remove_member p e requester room_id target w).1.room_members r u
  remove_member-OwnedBy e requester room_id target w r u o =
      elim (remove_member_writes e requester room_id target w) [
        | inl same ↦ rw same o
        | inr (one, present, updated) ↦
            let (m, q) = some_of_is_some (find_member p room_id target w) (ground arith) in
            rw updated (
              update-OwnedBy w.room_members r u room_id target (set_left_at (some e.now)) m q
                (p.room_member.find-key q) (λ _. refl)
                (λ here own.
                  absurd (
                    remove_spares_owner w requester room_id target u m (rw (← here) at o) one q
                      own))
                o)
      ]
