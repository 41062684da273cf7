-- ===== src/Api.antt =====
-- The HTTP controllers of backend/src: for each handler its guards, in their order, and the call of
-- the service with the parameters of the request. A token that Passport verifies is its subject,
-- the `sub` of `req.user`. The bodies are those that validation lets through, `Throttle` and the
-- documentation are left out, and so are the handlers of the administrator's counts.
pub mod Access
pub mod Services
pub mod Accounts
pub mod Escalation
pub mod Upkeep
pub mod Ownership
pub mod Lifecycle
use talkertive_chat_app.Base.{
  ℕ, String, Bool, true, false, Option, none, some, List, [], ◌∷◌, ◌==◌, string_eq, if◌then◌else◌,
  not,
}
use talkertive_chat_app.Schema.{RoomSchedule}
use talkertive_chat_app.World.{
  World, Clients, Fresh, Result, Action, transaction, ok, throw, pure, ◌>>=◌, ◌>>◌, throw_if, gets,
  bad_request, unauthorized,
}
use talkertive_chat_app.RoomMembers.{invite_member, remove_member, transfer_owner}
use talkertive_chat_app.Rooms.{
  CreateGroupRoomDto, UpdateGroupRoomDto, create_group_room, create_direct_room, update_group_room,
  delete_group_room, delete_direct_room,
}
use talkertive_chat_app.Rooms.Queries.{
  RoomListQuery, find_one_group_room, find_all_group_rooms, find_my_rooms, find_one_direct_room,
}
use talkertive_chat_app.Schedules.{
  UpdateScheduleDto, Answer, create_schedule, update_schedule, delete_schedule, find_my_schedules,
  find_room_schedules, process_ai_schedule,
}
use talkertive_chat_app.Schedules.Matching
use talkertive_chat_app.Banners
use talkertive_chat_app.Users.{UpdateUserDto, get_me, update_me, can_activate}
use talkertive_chat_app.Media.{
  UploadedFile, accepts_image, accepts_attachment, upload_user_profile, upload_room_cover,
  upload_room_profile, upload_banner, update_banner_image, upload_message_attachment,
}
use talkertive_chat_app.Admin.{find_one_user, delete_user, delete_room}
use talkertive_chat_app.Admin.Lists.{
  AdminUserQuery, AdminRoomQuery, find_all_users, find_all_rooms, find_one_room,
}

-- The handlers of each controller that no guard precedes, that `AccessTokenGuard` precedes, and that
-- `RolesGuard` precedes too.
pub data PublicRoute : Type 0 where
  all_group_rooms : RoomListQuery → PublicRoute
  one_group_room : String → PublicRoute
  all_banners : PublicRoute

pub data RoomMembersRoute : Type 0 where
  invite remove transfer : String → String → RoomMembersRoute

pub data RoomsRoute : Type 0 where
  create_group : CreateGroupRoomDto → RoomsRoute
  create_direct : String → RoomsRoute
  update_group : String → UpdateGroupRoomDto → RoomsRoute
  -- A body that also holds fields that no DTO declares, and what Prisma makes of these.
  create_group_and : CreateGroupRoomDto → Action (Unit {0}) → RoomsRoute
  update_group_and : String → UpdateGroupRoomDto → Action (Unit {0}) → RoomsRoute
  my_rooms : RoomsRoute
  one_direct_room delete_group delete_direct : String → RoomsRoute

pub data SchedulesRoute : Type 0 where
  my_schedules : SchedulesRoute
  room_schedules : String → SchedulesRoute
  add_schedule : String → String → ℕ → SchedulesRoute
  change_schedule : String → String → UpdateScheduleDto → SchedulesRoute
  remove_schedule : String → String → SchedulesRoute
  -- With the server's reading of dates and the answer of the language model.
  ai_schedule : (String → Option ℕ) → (List RoomSchedule → Answer) → String → SchedulesRoute

pub data UsersRoute : Type 0 where
  me : UsersRoute
  update_user : String → UpdateUserDto → UsersRoute
  update_user_and : String → UpdateUserDto → Action (Unit {0}) → UsersRoute

pub data MediaRoute : Type 0 where
  user_profile : Option UploadedFile → MediaRoute
  room_cover room_profile message_attachment : String → Option UploadedFile → MediaRoute

pub data MemberRoute : Type 0 where
  room_members : RoomMembersRoute → MemberRoute
  rooms : RoomsRoute → MemberRoute
  schedules : SchedulesRoute → MemberRoute
  users : UsersRoute → MemberRoute
  media : MediaRoute → MemberRoute

pub data AdminRoute : Type 0 where
  list_users : AdminUserQuery → AdminRoute
  list_rooms : AdminRoomQuery → AdminRoute
  one_user one_room remove_user remove_room : String → AdminRoute
  -- of `BannerController`
  remove_banner : String → AdminRoute
  change_banner : String → Option String → AdminRoute
  -- of `MediaController`
  add_banner : Option UploadedFile → String → AdminRoute
  banner_image : String → Option UploadedFile → AdminRoute

pub data Route : Type 0 where
  public : PublicRoute → Route
  member : MemberRoute → Route
  admin : AdminRoute → Route

-- Whether the body of a request holds no more than the columns that the models of this library name.
-- `updateMe`, `createGroupRoom` and `updateGroupRoom` hand their whole body to Prisma, and the
-- validation does not take undeclared fields out of it.
abbrev pub is_declared : MemberRoute → Bool
is_declared (rooms (create_group_and d nested)) = false
is_declared (rooms (update_group_and room_id d nested)) = false
is_declared (users (update_user_and target d nested)) = false
is_declared _ = true

-- The nested writes of one call of Prisma, which are carried out with it or not at all.
abbrev pub with_nested : {A : Type 0} → Action A → Action (Unit {0}) → Action A
with_nested m nested = transaction (m >>= λ x. nested >> pure x)

-- What is answered with is left out.
abbrev pub answered : {A : Type 0} → Action A → Action (Unit {0})
answered m = m >> pure tt

-- `FileInterceptor` with its filter, and the handler's test.
abbrev pub with_file :
    (UploadedFile → Bool)
    → String
    → Option UploadedFile
    → (UploadedFile → Action (Unit {0}))
    → Action (Unit {0})
with_file accepts refusal none act = throw (bad_request "파일이 없습니다")
with_file accepts refusal (some f) act = throw_if (not (accepts f)) (bad_request refusal) >> act f

abbrev pub image_file : Option UploadedFile → (UploadedFile → Action (Unit {0})) → Action (Unit {0})
image_file file act = with_file accepts_image "이미지 파일만 업로드 가능합니다." file act

module _ (p : Clients) (e : Fresh) where
  unfoldable pub handle_public : PublicRoute → Action (Unit {0})
  handle_public (all_group_rooms q) = answered (find_all_group_rooms p e.now q)
  handle_public (one_group_room id) = answered (find_one_group_room p e.now id)
  handle_public all_banners = answered (Banners.find_all p e.now)

  unfoldable pub handle_room_members : String → RoomMembersRoute → Action (Unit {0})
  handle_room_members user_id (invite room_id target) =
      answered (invite_member p e user_id room_id target)
  handle_room_members user_id (remove room_id target) =
      answered (remove_member p e user_id room_id target)
  handle_room_members user_id (transfer room_id target) =
      answered (transfer_owner p user_id room_id target)

  unfoldable pub handle_rooms : String → RoomsRoute → Action (Unit {0})
  handle_rooms user_id (create_group d) = answered (create_group_room p e user_id d)
  handle_rooms user_id (create_direct target) = answered (create_direct_room p e user_id target)
  handle_rooms user_id (update_group room_id d) = answered (update_group_room p user_id room_id d)
  handle_rooms user_id (create_group_and d nested) =
      answered (with_nested (create_group_room p e user_id d) nested)
  handle_rooms user_id (update_group_and room_id d nested) =
      answered (with_nested (update_group_room p user_id room_id d) nested)
  handle_rooms user_id my_rooms = answered (gets (find_my_rooms p user_id))
  handle_rooms user_id (one_direct_room room_id) = answered (find_one_direct_room p user_id room_id)
  handle_rooms user_id (delete_group room_id) = delete_group_room p user_id room_id
  handle_rooms user_id (delete_direct room_id) = delete_direct_room p user_id room_id

  unfoldable pub handle_schedules : String → SchedulesRoute → Action (Unit {0})
  handle_schedules user_id my_schedules = answered (gets (find_my_schedules p user_id))
  handle_schedules user_id (room_schedules room_id) = answered (find_room_schedules p room_id)
  handle_schedules user_id (add_schedule room_id name time) =
      answered (create_schedule p e user_id room_id name time)
  handle_schedules user_id (change_schedule room_id id d) =
      answered (update_schedule p user_id room_id id d)
  handle_schedules user_id (remove_schedule room_id id) = delete_schedule p user_id room_id id
  -- Nothing else happens while the model answers; `Lifecycle` puts other requests in between.
  handle_schedules user_id (ai_schedule parse ask room_id) =
      answered (process_ai_schedule p parse e ask (λ w. w) user_id room_id)

  unfoldable pub handle_users : String → UsersRoute → Action (Unit {0})
  handle_users user_id me = answered (get_me p user_id)
  handle_users user_id (update_user target d) = answered (update_me p user_id target d)
  handle_users user_id (update_user_and target d nested) =
      answered (with_nested (update_me p user_id target d) nested)

  unfoldable pub handle_media : String → MediaRoute → Action (Unit {0})
  handle_media user_id (user_profile file) =
      image_file file (λ f. answered (upload_user_profile p e f user_id))
  handle_media user_id (room_cover room_id file) =
      image_file file (λ f. answered (upload_room_cover p e f room_id user_id))
  handle_media user_id (room_profile room_id file) =
      image_file file (λ f. answered (upload_room_profile p e f room_id user_id))
  handle_media user_id (message_attachment room_id file) =
      with_file accepts_attachment "지원하지 않는 파일 형식입니다." file
        (λ f. answered (upload_message_attachment p e f room_id))

  unfoldable pub handle_member : String → MemberRoute → Action (Unit {0})
  unfolding handle_room_members handle_rooms handle_schedules handle_users handle_media
  handle_member user_id (room_members r) = handle_room_members user_id r
  handle_member user_id (rooms r) = handle_rooms user_id r
  handle_member user_id (schedules r) = handle_schedules user_id r
  handle_member user_id (users r) = handle_users user_id r
  handle_member user_id (media r) = handle_media user_id r

  unfoldable pub upload_banner_file : Option UploadedFile → String → Action (Unit {0})
  upload_banner_file file link = image_file file (λ f.
      throw_if (link == "") (bad_request "linkUrl이 없습니다") >> answered (upload_banner p e f link))

  unfoldable pub update_banner : String → Option String → Action (Unit {0})
  update_banner id link = answered (Banners.update p id link)

  unfoldable pub handle_admin : AdminRoute → Action (Unit {0})
  unfolding upload_banner_file update_banner
  handle_admin (list_users q) = answered (gets (find_all_users p q))
  handle_admin (list_rooms q) = answered (gets (find_all_rooms p q))
  handle_admin (one_user id) = answered (find_one_user p id)
  handle_admin (one_room id) = answered (find_one_room p id)
  handle_admin (remove_user id) = delete_user p id
  handle_admin (remove_room id) = delete_room p id
  handle_admin (remove_banner id) = answered (Banners.delete p id)
  handle_admin (change_banner id link) = update_banner id link
  handle_admin (add_banner file link) = upload_banner_file file link
  handle_admin (banner_image id file) =
      image_file file (λ f. answered (update_banner_image p e id f))

  -- `AccessTokenGuard`, with the subject of the token that the request brings, if one verifies.
  abbrev pub with_subject : Option String → (String → Action (Unit {0})) → Action (Unit {0})
  with_subject none act = throw unauthorized
  with_subject (some sub) act = act sub

  unfoldable pub handle : Option String → Route → Action (Unit {0})
  unfolding handle_public handle_member handle_admin
  handle subject (public r) = handle_public r
  handle subject (member r) = with_subject subject (λ sub. handle_member sub r)
  handle subject (admin r) =
      with_subject subject (λ sub. can_activate p (some ("ADMIN" ∷ [])) sub >> handle_admin r)
