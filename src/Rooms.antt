-- ===== src/Rooms.antt =====
-- backend/src/rooms/rooms.service.ts, `RoomsService`: what changes rooms. Its queries are in
-- Rooms/Queries.
pub mod Kinds
pub mod Keys
pub mod Queries
pub mod Freshness
pub mod Deletion
pub mod MyRooms
pub mod GroupDeletion
pub mod Creation
pub mod Upkeep
pub mod Ownership
use mathlib.Core.Option
use talkertive_chat_app.Base.{
  ℕ, String, Bool, true, false, not, ◌&&◌, ◌||◌, Option, none, some, List, [], ◌∷◌, ◌==◌, length,
  string_eq, nat_beq, if◌then◌else◌, pair_eq, is_none, find, leb,
}
use talkertive_chat_app.Schema.{
  Room, RoomType, direct, group, RoomCategory, RoomMember, owner, member,
}
use talkertive_chat_app.World.{
  ok, World, Clients, Fresh, Action, pure, throw, gets, modify, transaction, ◌>>=◌, ◌>>◌, throw_if,
  both, not_found, forbidden, conflict, known_request, create_room, update_room, delete_room_row,
  create_member, fits_int,
}
use talkertive_chat_app.RoomMembers.{find_member, holds_owner, new_member}
use talkertive_chat_app.Media.{◌+++◌, delete_if_exists, cover_of, profile_image_of}
use Kinds.{is_direct}
use Keys.{room_detail_key}

-- `CreateGroupRoomDto`, whose `date` stands for the time that its ISO text denotes.
pub record CreateGroupRoomDto : Type 0 where
  pub name : String
  pub description : Option String
  pub short_description : Option String
  pub member_limit : Option ℕ
  pub category : Option RoomCategory
  pub address : Option String
  pub date : Option ℕ
  pub cover_image : Option String
  pub profile_image : Option String

-- A field of a partial update: absent, or given, perhaps as null.
abbrev pub Patch : Type 0 → Type 0
Patch A = Option (Option A)

-- A field that is absent or null.
abbrev pub without_null : Patch ℕ → Option ℕ
without_null none = none
without_null (some n) = n

abbrev pub patched : {A : Type 0} → Patch A → Option A → Option A
patched none old = old
patched (some new) old = new

-- `UpdateGroupRoomDto`, the same fields, each optional. What a body holds besides, such as a type
-- or nested writes, is the action of `update_group_and` in Api.
pub record UpdateGroupRoomDto : Type 0 where
  pub name : Patch String
  pub description : Patch String
  pub short_description : Patch String
  pub member_limit : Patch ℕ
  pub category : Patch RoomCategory
  pub address : Patch String
  pub date : Patch ℕ
  pub cover_image : Patch String
  pub profile_image : Patch String

-- `dto.date ? new Date(dto.date) : undefined`: a null leaves the column alone.
abbrev pub patched_date : Patch ℕ → Option ℕ → Option ℕ
patched_date none old = old
patched_date (some none) old = old
patched_date (some (some t)) old = some t

abbrev pub apply_update : UpdateGroupRoomDto → Room → Room
apply_update d r = record r {
  name = patched d.name r.name;
  description = patched d.description r.description;
  short_description = patched d.short_description r.short_description;
  member_limit = patched d.member_limit r.member_limit;
  category = patched d.category r.category;
  address = patched d.address r.address;
  date = patched_date d.date r.date;
  cover_image = patched d.cover_image r.cover_image;
  profile_image = patched d.profile_image r.profile_image;
}

abbrev pub group_room : Fresh → String → CreateGroupRoomDto → Room
group_room e slug d = record {
  id = e.id;
  type = group;
  name = some d.name;
  slug = some slug;
  cover_image = d.cover_image;
  profile_image = d.profile_image;
  description = d.description;
  short_description = d.short_description;
  member_limit = d.member_limit;
  category = d.category;
  address = d.address;
  date = d.date;
  created_at = e.now;
}

abbrev pub direct_room : Fresh → Room
direct_room e = record {
  id = e.id;
  type = direct;
  name = none;
  slug = none;
  cover_image = none;
  profile_image = none;
  description = none;
  short_description = none;
  member_limit = none;
  category = none;
  address = none;
  date = none;
  created_at = e.now;
}

abbrev pub or_default : String → String → String
or_default s d = if s == "" then d else s

-- A member row that a nested `create` of a new room writes.
abbrev pub child : Fresh → ℕ → Fresh
child e n = record e { id = e.child_id n }

module _ (p : Clients) where
  -- `${slugify(dto.name, …) || 'room'}-${suffix}`
  abbrev pub slug_of : Fresh → String → String
  slug_of e name = or_default (p.slugify name) "room" +++ "-" +++ e.suffix

  unfoldable pub create_group_room : Fresh → String → CreateGroupRoomDto → Action Room
  unfolding create_room create_member
  create_group_room e user_id d = transaction (do
    throw_if (not (fits_int d.member_limit)) (known_request "P2020")
    room ← create_room p (group_room e (slug_of e d.name) d)
    create_member p (new_member (child e 0) room.id user_id none owner)
    pure room)

  unfoldable pub update_group_room : String → String → UpdateGroupRoomDto → Action Room
  unfolding update_room room_detail_key
  update_group_room user_id room_id d = do
    m ← gets (find_member p room_id user_id)
    throw_if (is_none m) (not_found "채팅방을 찾을 수 없습니다.")
    throw_if (not (holds_owner m)) (forbidden "방장만 채팅방 정보를 수정할 수 있습니다.")
    throw_if (not (fits_int (without_null d.member_limit))) (known_request "P2020")
    updated ← update_room p room_id (apply_update d)
    modify (λ w. record w { cache = p.cache.del (room_detail_key room_id) w.cache })
    pure updated

  unfoldable pub delete_group_room : String → String → Action (Unit {0})
  unfolding delete_if_exists delete_room_row room_detail_key
  delete_group_room user_id room_id = do
    m ← gets (find_member p room_id user_id)
    room ← gets (λ w. p.room.find_unique room_id w.rooms)
    throw_if (is_none m) (not_found "채팅방을 찾을 수 없습니다.")
    throw_if (not (holds_owner m)) (forbidden "방장만 채팅방을 삭제할 수 있습니다.")
    both (delete_if_exists p (cover_of room)) (delete_if_exists p (profile_image_of room))
    delete_room_row p room_id
    modify (λ w. record w { cache = p.cache.del (room_detail_key room_id) w.cache })

  unfoldable pub delete_direct_room : String → String → Action (Unit {0})
  unfolding delete_room_row
  delete_direct_room user_id room_id = do
    m ← gets (find_member p room_id user_id)
    throw_if (is_none m) (forbidden "접근 권한이 없습니다.")
    delete_room_row p room_id
    pure tt

  abbrev pub members_of : String → World → List RoomMember
  members_of room_id w = p.room_member.find_many (λ m. m.room_id == room_id) w.room_members

  -- `members: { every: { userId: { in: [userId, targetUserId] } } }`, for a DIRECT room.
  abbrev pub holds_only : String → String → World → Room → Bool
  holds_only user_id target_id w r =
      is_direct r.type
      && is_none
          (find (λ m. not (m.user_id == user_id || m.user_id == target_id)) (members_of r.id w))

  -- `findFirst({ where })`: one of the rows of the query, if there are any.
  abbrev pub first_of_rows : List Room → Option Room
  first_of_rows [] = none
  first_of_rows (r ∷ rs) = some r

  abbrev pub has_two_members : World → Option Room → Bool
  has_two_members w none = false
  has_two_members w (some r) = nat_beq (length (members_of r.id w)) 2

  unfoldable pub create_direct_room : Fresh → String → String → Action Room
  unfolding create_room create_member
  create_direct_room e user_id target_id = do
    target ← gets (λ w. p.user.find_unique target_id w.users)
    throw_if (is_none target) (not_found "상대방 유저를 찾을 수 없습니다.")
    existing ← gets (λ w. first_of_rows (p.room.find_many (holds_only user_id target_id w) w.rooms))
    throw_if (← gets (λ w. has_two_members w existing)) (conflict "이미 존재하는 채팅방입니다.")
    transaction (do
      room ← create_room p (direct_room e)
      create_member p (new_member (child e 0) room.id user_id none member)
      create_member p (new_member (child e 1) room.id target_id none member)
      pure room)
