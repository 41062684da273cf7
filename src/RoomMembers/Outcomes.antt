-- ===== src/RoomMembers/Outcomes.antt =====
-- How the methods of `RoomMembersService` end: who may do what, and what a refusal leaves behind.
use talkertive_chat_app.Base.{
  ◌+◌, String, Bool, true, false, not, ◌&&◌, ◌≡◌, some, arith, inl, inr, Option-cases, ◌==◌,
  string_eq, pair_eq, if◌then◌else◌,
}
use mathlib.Core.Option
use talkertive_chat_app.Schema.{member}
use talkertive_chat_app.World.{World, Clients, Fresh, is_ok}
use talkertive_chat_app.RoomMembers.{
  find_member, active_count, invite_member, remove_member, transfer_owner, is_gone, holds_owner,
  set_left_at, set_role,
}
use talkertive_chat_app.RoomMembers.Capacity.{count-leave}

module _ (p : Clients) where
  -- Where `inviteMember`, `removeMember` or `transferOwner` throws, it has changed nothing.
  pub room_members_atomic :
      (e : Fresh) (requester room_id target : String) (w : World)
      → (is_ok (invite_member p e requester room_id target w).0 ≡ false
          → (invite_member p e requester room_id target w).1 ≡ w)
        × (is_ok (remove_member p e requester room_id target w).0 ≡ false
            → (remove_member p e requester room_id target w).1 ≡ w)
        × (is_ok (transfer_owner p requester room_id target w).0 ≡ false
            → (transfer_owner p requester room_id target w).1 ≡ w)
  unfolding invite_member remove_member transfer_owner
  room_members_atomic e requester room_id target w =
      (λ h. ground arith, λ h. ground arith, λ h. ground arith)

  -- Whether a user takes part in a room, and whether as its owner.
  abbrev pub takes_part : String → String → World → Bool
  takes_part room_id user_id w = not (is_gone (find_member p room_id user_id w))

  abbrev pub owns : String → String → World → Bool
  owns room_id user_id w =
      takes_part room_id user_id w && holds_owner (find_member p room_id user_id w)

  -- A removal succeeds exactly where requester and target both take part and either an owner
  -- removes somebody else or one who is not an owner leaves.
  pub remove_member_iff :
      (e : Fresh) (requester room_id target : String) (w : World)
      → is_ok (remove_member p e requester room_id target w).0 ≡ (
          takes_part room_id target w
          && (if requester == target
              then takes_part room_id requester w && not (owns room_id requester w)
              else owns room_id requester w))
  unfolding remove_member
  remove_member_iff e requester room_id target w = ground arith

  -- A hand-over succeeds exactly where the requester takes part as an owner and the target is
  -- somebody else who takes part.
  pub transfer_owner_iff :
      (requester room_id target : String) (w : World)
      → is_ok (transfer_owner p requester room_id target w).0
        ≡ (owns room_id requester w && takes_part room_id target w && not (requester == target))
  unfolding transfer_owner
  transfer_owner_iff requester room_id target w =
      elim (Option-cases (find_member p room_id requester w)) [
        | inl missing ↦ ground arith
        | inr (m, q) ↦ ground (
          arith,
          p.room_member.find-update (room_id, requester) (set_role member) w.room_members
              (room_id, target) m q (p.room_member.find-key q),
        )
      ]

  -- A removal that succeeds marks the target's row with the time and changes no other row, and
  -- takes one from those who take part in the room.
  pub remove_member_leaves :
      (e : Fresh) (requester room_id target : String) (w : World) (r v : String)
      → is_ok (remove_member p e requester room_id target w).0 ≡ true
      → (find_member p r v (remove_member p e requester room_id target w).1 ≡ (
          if room_id == r && target == v
          then Option.map (set_left_at (some e.now)) (find_member p room_id target w)
          else find_member p r v w))
        × (active_count p room_id (remove_member p e requester room_id target w).1 + 1
            ≡ active_count p room_id w)
  unfolding remove_member
  remove_member_leaves e requester room_id target w r v done =
      elim (Option-cases (find_member p room_id target w)) [
        | inl missing ↦ ground arith
        | inr (m, q) ↦ (
          ground (
            arith,
            q,
            p.room_member.find-update (room_id, target) (set_left_at (some e.now)) w.room_members
                (r, v) m q (p.room_member.find-key q),
          ),
          ground (arith, q, count-leave p room_id target e.now w.room_members m q),
        )
      ]
