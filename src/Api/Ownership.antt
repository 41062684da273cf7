-- ===== src/Api/Ownership.antt =====
-- What a request of an ordinary user does to the ownership of rooms.
use talkertive_chat_app.Base.{String, true, ◌≡◌, refl, ap, arith, List, Option, some}
use talkertive_chat_app.Schema.{Room, RoomMember, User}
use talkertive_chat_app.World.{Clients, Fresh, Action}
use talkertive_chat_app.World.Preserves.{Preserves}
use talkertive_chat_app.RoomMembers.{invite_member, remove_member, transfer_owner}
use talkertive_chat_app.RoomMembers.Lifecycle.{step_lem, made, invited, removed, handed_over}
use talkertive_chat_app.Rooms.{create_group_room, create_direct_room, update_group_room}
use talkertive_chat_app.Rooms.Queries.{
  find_one_group_room, find_all_group_rooms, find_one_direct_room,
}
use talkertive_chat_app.Rooms.Upkeep.{HasOwners, tables, tables-Preserves}
use talkertive_chat_app.Rooms.Ownership.{
  create_direct_room-HasOwners, update_group_room-HasOwners, delete_group_room-HasOwners,
  delete_direct_room-HasOwners,
}
use talkertive_chat_app.Schedules.{
  create_schedule, update_schedule, delete_schedule, find_room_schedules, process_ai_schedule,
}
use talkertive_chat_app.Schedules.Kept.{process_ai_schedule-Keeps}
use talkertive_chat_app.Users.{get_me, update_me}
use talkertive_chat_app.Banners
use talkertive_chat_app.Media.{
  UploadedFile, upload_user_profile, upload_room_cover, upload_room_profile,
  upload_message_attachment, build_key, cover_of, profile_image_of, accepts_image,
  accepts_attachment, ◌+++◌,
}
use talkertive_chat_app.Media.Commands.{upload-Keeps}
use talkertive_chat_app.Api.{
  RoomMembersRoute, RoomsRoute, SchedulesRoute, UsersRoute, MediaRoute, MemberRoute, PublicRoute,
  all_group_rooms, one_group_room, all_banners, room_members, rooms, schedules, users as of_users,
  media, invite, remove, transfer, create_group, create_direct, update_group, my_rooms,
  one_direct_room, delete_group, delete_direct, my_schedules, room_schedules, add_schedule,
  change_schedule, remove_schedule, me, update_user, user_profile, room_cover, room_profile,
  message_attachment, create_group_and, update_group_and, update_user_and, ai_schedule, is_declared,
  handle_member, handle_public, handle_room_members, handle_rooms, handle_schedules, handle_users,
  handle_media, answered, image_file,
}
use talkertive_chat_app.Api.Upkeep.{
  answered-HasOwners, other-HasOwners, with_file-HasOwners, find_one_direct_room-Keeps,
  find_room_schedules-Keeps, create_schedule-Keeps, update_schedule-Keeps, delete_schedule-Keeps,
  get_me-Keeps, update_me-Keeps, find_one_group_room-Keeps, upload_user_profile-Keeps,
  replace-HasOwners, find_all_group_rooms-Keeps, banners-Keeps,
}

abbrev of_people : List Room × List RoomMember × List User → List Room × List RoomMember
of_people t = (t.0, t.1)

module _ (p : Clients) (e : Fresh) where
  room_members-HasOwners :
      (u : String) (r : RoomMembersRoute) → Preserves (HasOwners p) (handle_room_members p e u r)
  unfolding handle_room_members
  room_members-HasOwners u (invite r t) =
      answered-HasOwners p e (invite_member p e u r t) (λ w. step_lem p w _ (invited e u r t w))
  room_members-HasOwners u (remove r t) =
      answered-HasOwners p e (remove_member p e u r t) (λ w. step_lem p w _ (removed e u r t w))
  room_members-HasOwners u (transfer r t) =
      answered-HasOwners p e (transfer_owner p u r t) (λ w. step_lem p w _ (handed_over u r t w))

  rooms-HasOwners :
      (u : String) (r : RoomsRoute)
      → is_declared (rooms r) ≡ true
      → Preserves (HasOwners p) (handle_rooms p e u r)
  unfolding handle_rooms
  rooms-HasOwners u (create_group d) declared =
      answered-HasOwners p e (create_group_room p e u d) (λ w. step_lem p w _ (made e u d w))
  rooms-HasOwners u (create_direct t) declared =
      answered-HasOwners p e (create_direct_room p e u t) (create_direct_room-HasOwners p e u t)
  rooms-HasOwners u (update_group r d) declared =
      answered-HasOwners p e (update_group_room p u r d) (update_group_room-HasOwners p u r d)
  rooms-HasOwners u (create_group_and d nested) declared = absurd (ground arith)
  rooms-HasOwners u (update_group_and r d nested) declared = absurd (ground arith)
  rooms-HasOwners u my_rooms declared = λ w h. h
  rooms-HasOwners u (one_direct_room r) declared =
      other-HasOwners p e (find_one_direct_room p u r) (find_one_direct_room-Keeps p e u r)
  rooms-HasOwners u (delete_group r) declared = delete_group_room-HasOwners p u r
  rooms-HasOwners u (delete_direct r) declared = delete_direct_room-HasOwners p u r

  schedules-HasOwners :
      (u : String) (r : SchedulesRoute) → Preserves (HasOwners p) (handle_schedules p e u r)
  unfolding handle_schedules
  schedules-HasOwners u my_schedules = λ w h. h
  schedules-HasOwners u (room_schedules r) =
      other-HasOwners p e (find_room_schedules p r) (find_room_schedules-Keeps p e r)
  schedules-HasOwners u (add_schedule r n t) =
      other-HasOwners p e (create_schedule p e u r n t) (create_schedule-Keeps p e u r n t)
  schedules-HasOwners u (change_schedule r i d) =
      other-HasOwners p e (update_schedule p u r i d) (update_schedule-Keeps p e u r i d)
  schedules-HasOwners u (remove_schedule r i) =
      tables-Preserves p (delete_schedule p u r i) (delete_schedule-Keeps p e u r i)
  schedules-HasOwners u (ai_schedule parse ask r) =
      other-HasOwners p e (process_ai_schedule p parse e ask (λ w. w) u r)
        (λ w. ap of_people (process_ai_schedule-Keeps p parse e ask u r w))

  users-HasOwners :
      (u : String) (r : UsersRoute)
      → is_declared (of_users r) ≡ true
      → Preserves (HasOwners p) (handle_users p e u r)
  unfolding handle_users
  users-HasOwners u me declared = other-HasOwners p e (get_me p u) (get_me-Keeps p e u)
  users-HasOwners u (update_user t d) declared =
      other-HasOwners p e (update_me p u t d) (update_me-Keeps p e u t d)
  users-HasOwners u (update_user_and t d nested) declared = absurd (ground arith)

  room_image-HasOwners :
      (file : Option UploadedFile) (act : UploadedFile → Action Room)
      → ((f : UploadedFile) → Preserves (HasOwners p) (act f))
      → Preserves (HasOwners p) (image_file file (λ f. answered (act f)))
  room_image-HasOwners file act h =
      with_file-HasOwners p e accepts_image "이미지 파일만 업로드 가능합니다." file (λ f. answered (act f))
        (λ f. answered-HasOwners p e (act f) (h f))

  media-HasOwners : (u : String) (r : MediaRoute) → Preserves (HasOwners p) (handle_media p e u r)
  unfolding handle_media upload_room_cover upload_room_profile upload_message_attachment
  media-HasOwners u (user_profile file) =
      with_file-HasOwners p e accepts_image "이미지 파일만 업로드 가능합니다." file
        (λ f. answered (upload_user_profile p e f u))
        (λ f. other-HasOwners p e (upload_user_profile p e f u) (upload_user_profile-Keeps p e f u))
  media-HasOwners u (room_cover r file) =
      room_image-HasOwners file (λ f. upload_room_cover p e f r u)
        (λ f.
          replace-HasOwners p e cover_of f
            (build_key e ("rooms/" +++ r +++ "/cover") f.originalname) r u
            (λ url x. record x { cover_image = some url }) (λ url x. (refl, refl)))
  media-HasOwners u (room_profile r file) =
      room_image-HasOwners file (λ f. upload_room_profile p e f r u)
        (λ f.
          replace-HasOwners p e profile_image_of f
            (build_key e ("rooms/" +++ r +++ "/profile") f.originalname) r u
            (λ url x. record x { profile_image = some url }) (λ url x. (refl, refl)))
  media-HasOwners u (message_attachment r file) =
      with_file-HasOwners p e accepts_attachment "지원하지 않는 파일 형식입니다." file
        (λ f. answered (upload_message_attachment p e f r))
        (λ f.
          other-HasOwners p e (upload_message_attachment p e f r) (
            upload-Keeps p tables (λ w s. refl) f (build_key e ("messages/" +++ r) f.originalname)))

  pub handle_member-HasOwners :
      (u : String) (r : MemberRoute)
      → is_declared r ≡ true
      → Preserves (HasOwners p) (handle_member p e u r)
  unfolding handle_member
  handle_member-HasOwners u (room_members r) declared = room_members-HasOwners u r
  handle_member-HasOwners u (rooms r) declared = rooms-HasOwners u r declared
  handle_member-HasOwners u (schedules r) declared = schedules-HasOwners u r
  handle_member-HasOwners u (of_users r) declared = users-HasOwners u r declared
  handle_member-HasOwners u (media r) declared = media-HasOwners u r

  pub handle_public-HasOwners : (r : PublicRoute) → Preserves (HasOwners p) (handle_public p e r)
  unfolding handle_public
  handle_public-HasOwners (all_group_rooms q) =
      other-HasOwners p e (find_all_group_rooms p e.now q) (find_all_group_rooms-Keeps p e q)
  handle_public-HasOwners (one_group_room id) =
      other-HasOwners p e (find_one_group_room p e.now id) (find_one_group_room-Keeps p e id)
  handle_public-HasOwners all_banners =
      other-HasOwners p e (Banners.find_all p e.now) (banners-Keeps p e)
