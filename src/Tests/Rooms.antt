-- ===== src/Tests/Rooms.antt =====
-- The theorems on making, changing and deleting rooms at concrete requests.
use talkertive_chat_app.Base.{◌≡◌, ◌≢◌, refl, none, some, string_eq}
use talkertive_chat_app.Schema.{owner}
use talkertive_chat_app.World.{World, ok, room_detail}
use talkertive_chat_app.World.Memory.{memory}
use talkertive_chat_app.Rooms.{
  delete_direct_room, update_group_room, UpdateGroupRoomDto, apply_update,
}
use talkertive_chat_app.Rooms.Queries.{find_one_group_room, group_detail}
use talkertive_chat_app.Rooms.Deletion.{IsErased, delete_direct_room_iff}
use talkertive_chat_app.Rooms.Freshness.{update_group_room-find_one}
use talkertive_chat_app.Admin.{delete_user, delete_room}
use talkertive_chat_app.Admin.Deletion.{delete_user_orphans}
use talkertive_chat_app.Admin.RoomDeletion.{delete_room_served}
use talkertive_chat_app.Tests.Samples.{chat, study_room, alice_owns, member_of}

abbrev rename : UpdateGroupRoomDto
rename = record {
  name = some (some "Reading");
  description = none;
  short_description = none;
  member_limit = none;
  category = none;
  address = none;
  date = none;
  cover_image = none;
  profile_image = none;
}

delete_direct_room_iff_example :
    IsErased memory "study" (delete_direct_room memory "bob" "study" chat).1
unfolding memory delete_direct_room
delete_direct_room_iff_example = (delete_direct_room_iff memory "bob" "study" chat).1 refl

update_group_room-find_one_example :
    (find_one_group_room memory 5 "study"
      (update_group_room memory "alice" "study" rename chat).1).0
    ≡ ok (
        room_detail (
          group_detail memory
            (update_group_room memory "alice" "study" rename chat).1
            (apply_update rename study_room)))
unfolding memory update_group_room
update_group_room-find_one_example =
    update_group_room-find_one memory 5 "alice" "study" rename chat study_room refl refl refl

abbrev read_once : World
read_once = (find_one_group_room memory 5 "study" chat).1

delete_user_orphans_example : (member_of "study" "bob").role ≢ owner
unfolding memory delete_user
delete_user_orphans_example =
    delete_user_orphans memory "alice" "study" chat refl alice_owns "bob" (member_of "study" "bob")
      refl

delete_room_served_example :
    (find_one_group_room memory 6 "study" (delete_room memory "study" read_once).1).0
    ≡ ok (room_detail (group_detail memory chat study_room))
unfolding memory find_one_group_room delete_room
delete_room_served_example =
    (delete_room_served memory 6 "study" read_once refl).1
      (room_detail (group_detail memory chat study_room)) refl
