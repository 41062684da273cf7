-- ===== src/Tests/Samples.antt =====
-- The data of the tests: alice owns a room for three, bob takes part in it, carol does not; bob has
-- sent a message, and a schedule is planned.
use talkertive_chat_app.Base.{String, none, some, [], ◌∷◌, false, arith, id_iff, refl, string_eq}
use talkertive_chat_app.Schema.{
  User, Room, RoomSchedule, RoomMember, Message, Banner, group, owner, member,
}
use talkertive_chat_app.World.{World, Fresh}
use talkertive_chat_app.World.Memory.{empty, fresh, memory}
use talkertive_chat_app.RoomMembers.Ownership.{OwnedBy}

abbrev pub user_named : String → User
user_named id = record {
  id = id;
  name = some id;
  email = none;
  hashed_password = some "hash";
  image = none;
  description = none;
  role = "USER";
  created_at = 1;
}

abbrev pub member_of : String → String → RoomMember
member_of room_id user_id = record {
  id = user_id;
  room_id = room_id;
  user_id = user_id;
  role = member;
  invited_by = some "alice";
  left_at = none;
  last_read_at = none;
  created_at = 2;
}

abbrev pub owner_of : String → String → RoomMember
owner_of room_id user_id = record (member_of room_id user_id) { role = owner; invited_by = none }

abbrev pub study_room : Room
study_room = record {
  id = "study";
  type = group;
  name = some "Study";
  slug = some "study-1";
  cover_image = none;
  profile_image = none;
  description = none;
  short_description = none;
  member_limit = some 3;
  category = none;
  address = none;
  date = some 5_000;
  created_at = 1;
}

abbrev pub hello : Message
hello = record {
  id = "hello";
  room_id = "study";
  sender_id = "bob";
  content = some "hello";
  is_edited = false;
  deleted_at = none;
  created_at = 3;
}

abbrev pub meeting : RoomSchedule
meeting = record {
  id = "meeting";
  room_id = "study";
  name = "meeting";
  time = 7_000;
  created_at = 4;
}

abbrev pub banner : Banner
banner = record {
  id = "banner";
  image_url = "https://cdn.example/banners/1.png";
  link_url = "https://example.org";
  created_at = 1;
}

abbrev pub chat : World
chat = record empty {
  users = user_named "alice" ∷ user_named "bob" ∷ user_named "carol" ∷ [];
  rooms = study_room ∷ [];
  schedules = meeting ∷ [];
  room_members = owner_of "study" "alice" ∷ member_of "study" "bob" ∷ [];
  messages = hello ∷ [];
  banners = banner ∷ [];
}

-- A world in which `id` is not yet taken.
abbrev pub next : Fresh
next = fresh

pub alice_owns : OwnedBy memory chat.room_members "study" "alice"
unfolding memory
alice_owns = record {
  row = _;
  found = refl;
  owns = refl;
  active = refl;
  alone = λ v m h own. ground (arith, id_iff "alice" v, id_iff "bob" v);
}
