-- ===== src/Api/Services.antt =====
-- The services leave the table of users alone, but for the row that a request names.
use talkertive_chat_app.Base.{
  ℕ, String, false, ◌≡◌, refl, ◌∙◌, Option, some, List, ◌==◌, string_eq, arith, inl, inr,
  Option-cases,
}
use talkertive_chat_app.Schema.{User, Room}
use talkertive_chat_app.World.{
  World, Clients, Fresh, Action, pure, S3Command, update_room, update_user as update_user_row, ◌>>◌,
  ◌>>=◌, gets,
}
use talkertive_chat_app.World.Keeps.{Keeps, bind-Keeps}
use talkertive_chat_app.RoomMembers.{invite_member, remove_member, transfer_owner}
use talkertive_chat_app.Rooms.{
  CreateGroupRoomDto, UpdateGroupRoomDto, create_group_room, create_direct_room, update_group_room,
  delete_group_room, delete_direct_room,
}
use talkertive_chat_app.Rooms.Queries.{find_one_direct_room}
use talkertive_chat_app.Schedules.{
  UpdateScheduleDto, create_schedule, update_schedule, delete_schedule, find_room_schedules,
}
use talkertive_chat_app.Users.{get_me, find_user}
use talkertive_chat_app.Media.{
  UploadedFile, UserProfile, upload_user_profile, upload_room_cover, upload_room_profile,
  upload_message_attachment, assert_room_owner, upload, delete_if_exists, build_key, cover_of,
  profile_image_of, image_of, profile_of, ◌+++◌,
}
use talkertive_chat_app.Media.Commands.{delete_if_exists-Keeps, upload-Keeps}

module _ (p : Clients) (e : Fresh) where
  abbrev pub users : World → List User
  users w = w.users

  pub invite_member-Keeps : (u r t : String) → Keeps users (invite_member p e u r t)
  unfolding invite_member
  invite_member-Keeps u r t w = ground arith

  pub remove_member-Keeps : (u r t : String) → Keeps users (remove_member p e u r t)
  unfolding remove_member
  remove_member-Keeps u r t w = ground arith

  pub transfer_owner-Keeps : (u r t : String) → Keeps users (transfer_owner p u r t)
  unfolding transfer_owner
  transfer_owner-Keeps u r t w = ground arith

  pub create_group_room-Keeps :
      (u : String) (d : CreateGroupRoomDto) → Keeps users (create_group_room p e u d)
  unfolding create_group_room
  create_group_room-Keeps u d w = ground arith

  pub create_direct_room-Keeps : (u t : String) → Keeps users (create_direct_room p e u t)
  unfolding create_direct_room
  create_direct_room-Keeps u t w = ground arith

  pub update_group_room-Keeps :
      (u r : String) (d : UpdateGroupRoomDto) → Keeps users (update_group_room p u r d)
  unfolding update_group_room
  update_group_room-Keeps u r d w = ground arith

  pub delete_group_room-Keeps : (u r : String) → Keeps users (delete_group_room p u r)
  unfolding delete_group_room
  delete_group_room-Keeps u r w = ground arith

  pub delete_direct_room-Keeps : (u r : String) → Keeps users (delete_direct_room p u r)
  unfolding delete_direct_room
  delete_direct_room-Keeps u r w = ground arith

  pub find_one_direct_room-Keeps : (u r : String) → Keeps users (find_one_direct_room p u r)
  unfolding find_one_direct_room
  find_one_direct_room-Keeps u r w = ground arith

  pub find_room_schedules-Keeps : (r : String) → Keeps users (find_room_schedules p r)
  unfolding find_room_schedules
  find_room_schedules-Keeps r w = ground arith

  pub create_schedule-Keeps : (u r n : String) (t : ℕ) → Keeps users (create_schedule p e u r n t)
  unfolding create_schedule
  create_schedule-Keeps u r n t w = ground arith

  pub update_schedule-Keeps :
      (u r i : String) (d : UpdateScheduleDto) → Keeps users (update_schedule p u r i d)
  unfolding update_schedule
  update_schedule-Keeps u r i d w = ground arith

  pub delete_schedule-Keeps : (u r i : String) → Keeps users (delete_schedule p u r i)
  unfolding delete_schedule
  delete_schedule-Keeps u r i w = ground arith

  pub get_me-Keeps : (u : String) → Keeps users (get_me p u)
  unfolding get_me
  get_me-Keeps u w = ground arith

  -- The uploads: what was there is deleted, the file stored and the row written.
  pub replace-Keeps :
      {A C : Type 0} {B : Type 0} (g : World → B)
      (blind : (w : World) (s : List S3Command) → g (record w { s3 = s }) ≡ g w) (read : World → A)
      (old : A → Option String) (f : UploadedFile) (key : String) (store : String → Action C)
      → ((url : String) → Keeps g (store url))
      → Keeps g (gets read >>= λ a. delete_if_exists p (old a) >> (upload p f key >>= store))
  replace-Keeps g blind read old f key store h =
      bind-Keeps g (gets read) (λ a. delete_if_exists p (old a) >> (upload p f key >>= store))
        (λ w. refl)
        (λ a.
          bind-Keeps g (delete_if_exists p (old a)) (λ _. upload p f key >>= store)
            (delete_if_exists-Keeps p g blind (old a))
            (λ _. bind-Keeps g (upload p f key) store (upload-Keeps p g blind f key) h))

  assert_room_owner-Keeps : (r u : String) → Keeps users (assert_room_owner p r u)
  unfolding assert_room_owner
  assert_room_owner-Keeps r u w = ground arith

  update_room-Keeps : (r : String) (f : Room → Room) → Keeps users (update_room p r f)
  unfolding update_room
  update_room-Keeps r f w = refl

  pub upload_room_cover-Keeps :
      (f : UploadedFile) (r u : String) → Keeps users (upload_room_cover p e f r u)
  unfolding upload_room_cover
  upload_room_cover-Keeps f r u =
      bind-Keeps users (assert_room_owner p r u)
        (λ _. gets (λ w. p.room.find_unique r w.rooms) >>= λ x.
          delete_if_exists p (cover_of x)
          >> (upload p f (build_key e ("rooms/" +++ r +++ "/cover") f.originalname) >>= store))
        (assert_room_owner-Keeps r u)
        (λ _.
          replace-Keeps users (λ w s. refl) (λ w. p.room.find_unique r w.rooms) cover_of f _ store
            (λ url. update_room-Keeps r (λ x. record x { cover_image = some url })))
    where
      store : String → Action Room
      store url = update_room p r (λ x. record x { cover_image = some url })

  pub upload_room_profile-Keeps :
      (f : UploadedFile) (r u : String) → Keeps users (upload_room_profile p e f r u)
  unfolding upload_room_profile
  upload_room_profile-Keeps f r u =
      bind-Keeps users (assert_room_owner p r u)
        (λ _. gets (λ w. p.room.find_unique r w.rooms) >>= λ x.
          delete_if_exists p (profile_image_of x)
          >> (upload p f (build_key e ("rooms/" +++ r +++ "/profile") f.originalname) >>= store))
        (assert_room_owner-Keeps r u)
        (λ _.
          replace-Keeps users (λ w s. refl) (λ w. p.room.find_unique r w.rooms) profile_image_of f _
            store (λ url. update_room-Keeps r (λ x. record x { profile_image = some url })))
    where
      store : String → Action Room
      store url = update_room p r (λ x. record x { profile_image = some url })

  pub upload_message_attachment-Keeps :
      (f : UploadedFile) (r : String) → Keeps users (upload_message_attachment p e f r)
  unfolding upload_message_attachment
  upload_message_attachment-Keeps f r = upload-Keeps p users (λ w s. refl) f _

  update_user-Keeps :
      (u j : String) (f : User → User)
      → ((x : User) → (f x).id ≡ x.id)
      → (u == j) ≡ false
      → Keeps (find_user p j) (update_user_row p u f)
  unfolding update_user_row
  update_user-Keeps u j f same other w = elim (Option-cases (find_user p u w)) [
    | inl missing ↦ ground arith
    | inr (x, q) ↦ ground (arith, p.user.find-update u f w.users j x q (same x ∙ p.user.find-key q))
  ]

  pub upload_user_profile-Keeps :
      (f : UploadedFile) (u j : String)
      → (u == j) ≡ false
      → Keeps (find_user p j) (upload_user_profile p e f u)
  unfolding upload_user_profile
  upload_user_profile-Keeps f u j other =
      replace-Keeps (find_user p j) (λ w s. refl) (λ w. p.user.find_unique u w.users) image_of f _
        store
        (λ url.
          bind-Keeps (find_user p j) (update_user_row p u (with_image url))
            (λ x. pure (profile_of x)) (update_user-Keeps u j (with_image url) (λ x. refl) other)
            (λ x w. refl))
    where
      with_image : String → User → User
      with_image url x = record x { image = some url }

      store : String → Action UserProfile
      store url = update_user_row p u (with_image url) >>= λ x. pure (profile_of x)
