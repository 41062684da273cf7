-- ===== src/Api/Upkeep.antt =====
-- What the services below the controllers do to the ownership of rooms.
use talkertive_chat_app.Base.{ℕ, String, Bool, ◌≡◌, refl, Option, none, some, not, arith}
use talkertive_chat_app.Schema.{Room, User}
use talkertive_chat_app.World.{
  World, Clients, Fresh, Action, pure, gets, throw_if, bad_request, update_room,
  update_user as update_user_row, ◌>>◌, ◌>>=◌,
}
use talkertive_chat_app.World.Keeps.{Keeps, bind-Keeps}
use talkertive_chat_app.World.Preserves.{
  Preserves, bind-Preserves, then-Preserves, throw_if-Preserves,
}
use talkertive_chat_app.Rooms.Queries.{
  RoomListQuery, find_one_group_room, find_all_group_rooms, find_one_direct_room,
}
use talkertive_chat_app.Rooms.Upkeep.{HasOwners, tables, tables-Preserves, update_room-HasOwners}
use talkertive_chat_app.Schedules.{
  UpdateScheduleDto, create_schedule, update_schedule, delete_schedule, find_room_schedules,
}
use talkertive_chat_app.Users.{UpdateUserDto, get_me, update_me}
use talkertive_chat_app.Banners
use talkertive_chat_app.Media.{
  UploadedFile, UserProfile, upload_user_profile, assert_room_owner, upload, delete_if_exists,
  image_of, profile_of,
}
use talkertive_chat_app.Media.Commands.{delete_if_exists-Keeps, upload-Keeps}
use talkertive_chat_app.Api.{answered, with_file}
use talkertive_chat_app.Api.Services.{replace-Keeps}

module _ (p : Clients) (e : Fresh) where
  pub answered-HasOwners :
      {A : Type 0} (m : Action A) → Preserves (HasOwners p) m → Preserves (HasOwners p) (answered m)
  answered-HasOwners m h = then-Preserves (HasOwners p) m (pure tt) h (λ w k. k)

  -- An action that does not touch the tables.
  pub other-HasOwners :
      {A : Type 0} (m : Action A) → Keeps tables m → Preserves (HasOwners p) (answered m)
  other-HasOwners m k = answered-HasOwners m (tables-Preserves p m k)

  pub with_file-HasOwners :
      (accepts : UploadedFile → Bool) (refusal : String) (file : Option UploadedFile)
      (act : UploadedFile → Action (Unit {0}))
      → ((f : UploadedFile) → Preserves (HasOwners p) (act f))
      → Preserves (HasOwners p) (with_file accepts refusal file act)
  with_file-HasOwners accepts refusal none act h w k = k
  with_file-HasOwners accepts refusal (some f) act h w k =
      then-Preserves (HasOwners p) (throw_if (not (accepts f)) (bad_request refusal)) (act f)
        (throw_if-Preserves (HasOwners p) (not (accepts f)) (bad_request refusal)) (h f) w k

  pub find_one_direct_room-Keeps : (u r : String) → Keeps tables (find_one_direct_room p u r)
  unfolding find_one_direct_room
  find_one_direct_room-Keeps u r w = ground arith

  pub find_room_schedules-Keeps : (r : String) → Keeps tables (find_room_schedules p r)
  unfolding find_room_schedules
  find_room_schedules-Keeps r w = ground arith

  pub create_schedule-Keeps : (u r n : String) (t : ℕ) → Keeps tables (create_schedule p e u r n t)
  unfolding create_schedule
  create_schedule-Keeps u r n t w = ground arith

  pub update_schedule-Keeps :
      (u r i : String) (d : UpdateScheduleDto) → Keeps tables (update_schedule p u r i d)
  unfolding update_schedule
  update_schedule-Keeps u r i d w = ground arith

  pub delete_schedule-Keeps : (u r i : String) → Keeps tables (delete_schedule p u r i)
  unfolding delete_schedule
  delete_schedule-Keeps u r i w = ground arith

  pub get_me-Keeps : (u : String) → Keeps tables (get_me p u)
  unfolding get_me
  get_me-Keeps u w = ground arith

  pub update_me-Keeps : (u t : String) (d : UpdateUserDto) → Keeps tables (update_me p u t d)
  unfolding update_me
  update_me-Keeps u t d w = ground arith

  pub find_one_group_room-Keeps : (r : String) → Keeps tables (find_one_group_room p e.now r)
  unfolding find_one_group_room
  find_one_group_room-Keeps r w = ground arith

  pub find_all_group_rooms-Keeps :
      (q : RoomListQuery) → Keeps tables (find_all_group_rooms p e.now q)
  unfolding find_all_group_rooms
  find_all_group_rooms-Keeps q w = ground arith

  pub banners-Keeps : Keeps tables (Banners.find_all p e.now)
  unfolding Banners.find_all
  banners-Keeps w = ground arith

  user_row-Keeps : (u : String) (f : User → User) → Keeps tables (update_user_row p u f)
  unfolding update_user_row
  user_row-Keeps u f w = ground arith

  pub upload_user_profile-Keeps :
      (f : UploadedFile) (u : String) → Keeps tables (upload_user_profile p e f u)
  unfolding upload_user_profile
  upload_user_profile-Keeps f u =
      replace-Keeps p e tables (λ w s. refl) (λ w. p.user.find_unique u w.users) image_of f _ store
        (λ url.
          bind-Keeps tables (update_user_row p u (with_image url)) (λ x. pure (profile_of x))
            (written url) (λ x w. refl))
    where
      with_image : String → User → User
      with_image url x = record x { image = some url }

      store : String → Action UserProfile
      store url = update_user_row p u (with_image url) >>= λ x. pure (profile_of x)

      written : (url : String) → Keeps tables (update_user_row p u (with_image url))
      written url w = user_row-Keeps u (with_image url) w

  assert_room_owner-Keeps : (r u : String) → Keeps tables (assert_room_owner p r u)
  unfolding assert_room_owner
  assert_room_owner-Keeps r u w = ground arith

  -- An upload for a room: the owner is asked for, what was there deleted, the file stored and the
  -- row written.
  pub replace-HasOwners :
      (old : Option Room → Option String) (f : UploadedFile) (key r u : String)
      (set : String → Room → Room)
      → ((url : String) (x : Room) → ((set url x).id ≡ x.id) × ((set url x).type ≡ x.type))
      → Preserves (HasOwners p) (
          assert_room_owner p r u
          >> (gets (λ w. p.room.find_unique r w.rooms) >>= λ x.
              delete_if_exists p (old x) >> (upload p f key >>= λ url. update_room p r (set url))))
  replace-HasOwners old f key r u set same =
      let Q = HasOwners p in
      let read = λ (w : World). p.room.find_unique r w.rooms in
      let store = λ (url : String). update_room p r (set url) in
      then-Preserves Q (assert_room_owner p r u)
        (gets read >>= λ x. delete_if_exists p (old x) >> (upload p f key >>= store))
        (tables-Preserves p (assert_room_owner p r u) (assert_room_owner-Keeps r u))
        (bind-Preserves Q (gets read)
          (λ x. delete_if_exists p (old x) >> (upload p f key >>= store)) (λ w h. h)
          (λ x.
            then-Preserves Q (delete_if_exists p (old x)) (upload p f key >>= store)
              (tables-Preserves p (delete_if_exists p (old x))
                (delete_if_exists-Keeps p tables (λ w s. refl) (old x)))
              (bind-Preserves Q (upload p f key) store
                (tables-Preserves p (upload p f key) (upload-Keeps p tables (λ w s. refl) f key))
                (λ url.
                  update_room-HasOwners p r (set url) (λ y. (same url y).0)
                    (λ y. (same url y).1)))))
