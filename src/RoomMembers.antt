-- ===== src/RoomMembers.antt =====
-- backend/src/room-members/room-members.service.ts, `RoomMembersService`: inviting, removing and
-- handing over the ownership of a room. A method takes the clients, what it draws from its
-- surroundings, and the arguments of the source in their order.
pub mod Ownership
pub mod Transfer
pub mod Placement
pub mod Capacity
pub mod Outcomes
pub mod Lifecycle
use talkertive_chat_app.Base.{
  ℕ, String, Bool, true, false, not, ◌&&◌, ◌||◌, Option, none, some, leb, ◌==◌, string_eq,
  if◌then◌else◌, pair_eq, is_none, is_some,
}
use talkertive_chat_app.Schema.{Room, RoomMember, RoomMemberRole, owner, member}
use talkertive_chat_app.World.{
  World, Clients, Fresh, Action, pure, throw, gets, transaction, ◌>>=◌, ◌>>◌, throw_if, not_found,
  forbidden, bad_request, bad_request_of, type_error, create_member, update_member,
}

abbrev pub is_owner_role : RoomMemberRole → Bool
is_owner_role owner = true
is_owner_role member = false

-- `member.role !== 'OWNER'` on a row that may be missing.
abbrev pub holds_owner : Option RoomMember → Bool
holds_owner none = false
holds_owner (some m) = is_owner_role m.role

-- `!member || member.leftAt !== null`
abbrev pub is_gone : Option RoomMember → Bool
is_gone none = true
is_gone (some m) = is_some m.left_at

-- `where: { roomId, leftAt: null }`
abbrev pub is_active_in : String → RoomMember → Bool
is_active_in room_id m = m.room_id == room_id && is_none m.left_at

abbrev pub set_left_at : Option ℕ → RoomMember → RoomMember
set_left_at t m = record m { left_at = t }

abbrev pub set_role : RoomMemberRole → RoomMember → RoomMember
set_role r m = record m { role = r }

abbrev pub rejoin : String → RoomMember → RoomMember
rejoin requester_id m = record m { left_at = none; invited_by = some requester_id }

-- The defaults of the schema fill the columns that the call leaves out.
abbrev pub new_member : Fresh → String → String → Option String → RoomMemberRole → RoomMember
new_member e room_id user_id invited_by role = record {
  id = e.id;
  room_id = room_id;
  user_id = user_id;
  role = role;
  invited_by = invited_by;
  left_at = none;
  last_read_at = none;
  created_at = e.now;
}

module _ (p : Clients) where
  abbrev pub find_member : String → String → World → Option RoomMember
  find_member room_id user_id w = p.room_member.find_unique (room_id, user_id) w.room_members

  abbrev pub active_count : String → World → ℕ
  active_count room_id w = p.room_member.count (is_active_in room_id) w.room_members

  unfoldable pub assert_owner : String → String → Action (Unit {0})
  assert_owner user_id room_id = do
    m ← gets (find_member room_id user_id)
    throw_if (is_gone m) (forbidden "채팅방에 접근 권한이 없습니다.")
    throw_if (not (holds_owner m)) (forbidden "OWNER만 수행할 수 있는 작업입니다.")

  -- The test of the limit. A room that is missing passes `room?.memberLimit !== null`, and
  -- reading its count throws.
  unfoldable pub check_limit : Option Room → ℕ → Action (Unit {0})
  check_limit none n = throw type_error
  check_limit (some room) n = elim room.member_limit [
    | none ↦ pure tt
    | some limit ↦ throw_if (leb limit n) (bad_request_of "최대 인원(" limit "명)에 도달해 더 이상 초대할 수 없습니다.")
  ]

  unfoldable pub admit : Fresh → String → String → String → Option RoomMember → Action RoomMember
  unfolding create_member update_member
  admit e requester_id room_id target_id none =
      create_member p (new_member e room_id target_id (some requester_id) member)
  admit e requester_id room_id target_id (some m) =
      if is_none m.left_at
      then throw (bad_request "이미 채팅방에 참여 중인 유저입니다.")
      else update_member p room_id target_id (rejoin requester_id)

  unfoldable pub invite_member : Fresh → String → String → String → Action RoomMember
  unfolding assert_owner check_limit admit
  invite_member e requester_id room_id target_id = do
    assert_owner requester_id room_id
    target ← gets (λ w. p.user.find_unique target_id w.users)
    throw_if (is_none target) (not_found "초대할 유저를 찾을 수 없습니다.")
    room ← gets (λ w. p.room.find_unique room_id w.rooms)
    check_limit room (← gets (active_count room_id))
    admit e requester_id room_id target_id (← gets (find_member room_id target_id))

  unfoldable pub remove_member : Fresh → String → String → String → Action RoomMember
  unfolding update_member
  remove_member e requester_id room_id target_id = do
    requester ← gets (find_member room_id requester_id)
    throw_if (is_gone requester) (forbidden "채팅방에 접근 권한이 없습니다.")
    target ← gets (find_member room_id target_id)
    throw_if (is_gone target) (not_found "해당 유저는 채팅방 멤버가 아닙니다.")
    let is_owner = holds_owner requester
    let is_self = requester_id == target_id
    throw_if (is_owner && is_self)
        (bad_request "OWNER는 자기 자신을 내보낼 수 없습니다. 먼저 OWNER를 다른 멤버에게 넘겨주세요.")
    throw_if (not is_owner && not is_self) (forbidden "자기 자신만 채팅방에서 나갈 수 있습니다.")
    update_member p room_id target_id (set_left_at (some e.now))

  unfoldable pub transfer_owner : String → String → String → Action RoomMember
  unfolding assert_owner update_member
  transfer_owner requester_id room_id target_id = do
    assert_owner requester_id room_id
    throw_if (requester_id == target_id) (bad_request "자기 자신에게 OWNER를 넘겨줄 수 없습니다.")
    target ← gets (find_member room_id target_id)
    throw_if (is_gone target) (not_found "해당 유저는 채팅방 멤버가 아닙니다.")
    transaction (
        update_member p room_id requester_id (set_role member)
        >> update_member p room_id target_id (set_role owner))
