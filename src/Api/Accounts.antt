-- ===== src/Api/Accounts.antt =====
-- Whose account a request can change.
use talkertive_chat_app.Base.{
  String, Bool, true, false, List, not, ◌≡◌, refl, ap, Option, none, some, ◌==◌, string_eq, arith,
  id_iff,
}
use talkertive_chat_app.World.{World, Clients, Fresh, Action, throw_if, pure, bad_request}
use talkertive_chat_app.World.Keeps.{Keeps, bind-Keeps, throw_if-Keeps}
use talkertive_chat_app.RoomMembers.{invite_member, remove_member, transfer_owner}
use talkertive_chat_app.Rooms.{create_group_room, create_direct_room, update_group_room}
use talkertive_chat_app.Rooms.Queries.{find_one_direct_room}
use talkertive_chat_app.Schedules.{
  create_schedule, update_schedule, find_room_schedules, process_ai_schedule,
}
use talkertive_chat_app.Schedules.Kept.{process_ai_schedule-Keeps}
use talkertive_chat_app.Schema.{Room, RoomMember, User}
use talkertive_chat_app.Users.{get_me, update_me, find_user}
use talkertive_chat_app.Users.Access.{update_me_iff}
use talkertive_chat_app.Media.{
  UploadedFile, accepts_image, accepts_attachment, upload_user_profile, upload_room_cover,
  upload_room_profile, upload_message_attachment,
}
use talkertive_chat_app.Api.{
  MemberRoute, handle_member, answered, with_file, handle_room_members, handle_rooms,
  handle_schedules, handle_users, handle_media, room_members, rooms, schedules, users as of_users,
  media, invite, remove, transfer, create_group, create_direct, update_group, my_rooms,
  one_direct_room, delete_group, delete_direct, my_schedules, room_schedules, add_schedule,
  change_schedule, remove_schedule, me, update_user, user_profile, room_cover, room_profile,
  message_attachment, create_group_and, update_group_and, update_user_and, ai_schedule, is_declared,
}
use talkertive_chat_app.Api.Services.{
  users as user_rows, invite_member-Keeps, remove_member-Keeps, transfer_owner-Keeps,
  create_group_room-Keeps, create_direct_room-Keeps, update_group_room-Keeps,
  delete_group_room-Keeps, delete_direct_room-Keeps, find_one_direct_room-Keeps,
  find_room_schedules-Keeps, create_schedule-Keeps, update_schedule-Keeps, delete_schedule-Keeps,
  get_me-Keeps, upload_room_cover-Keeps, upload_room_profile-Keeps, upload_message_attachment-Keeps,
  upload_user_profile-Keeps,
}

module _ (p : Clients) (e : Fresh) where
  answered-Keeps :
      {A : Type 0} {B : Type 0} (g : World → B) (m : Action A) → Keeps g m → Keeps g (answered m)
  answered-Keeps g m h = bind-Keeps g m (λ _. pure tt) h (λ _ w. refl)

  with_file-Keeps :
      {B : Type 0} (g : World → B) (accepts : UploadedFile → Bool) (refusal : String)
      (file : Option UploadedFile) (act : UploadedFile → Action (Unit {0}))
      → ((f : UploadedFile) → Keeps g (act f))
      → Keeps g (with_file accepts refusal file act)
  with_file-Keeps g accepts refusal none act h w = refl
  with_file-Keeps g accepts refusal (some f) act h w =
      bind-Keeps g (throw_if (not (accepts f)) (bad_request refusal)) (λ _. act f)
        (throw_if-Keeps g (not (accepts f)) (bad_request refusal)) (λ _. h f) w

  -- An action that leaves the table of users leaves the row of each.
  row-Keeps :
      {A : Type 0} (j : String) (m : Action A)
      → Keeps (user_rows p e) m
      → Keeps (find_user p j) (answered m)
  row-Keeps j m h = answered-Keeps (find_user p j) m (λ w. ap (λ t. p.user.find_unique j t) (h w))

  -- Where the body of a request holds no more than the columns that are modelled, that is, no nested
  -- write, no handler behind the token's guard alone changes the account of another user than the
  -- one in whose name it runs.
  pub handle_member-Keeps :
      (u j : String) (r : MemberRoute) (w : World)
      → (u == j) ≡ false
      → is_declared r ≡ true
      → find_user p j (handle_member p e u r w).1 ≡ find_user p j w
  unfolding handle_member handle_room_members handle_rooms handle_schedules handle_users
      handle_media
  handle_member-Keeps u j (room_members (invite r t)) w other declared =
      row-Keeps j (invite_member p e u r t) (invite_member-Keeps p e u r t) w
  handle_member-Keeps u j (room_members (remove r t)) w other declared =
      row-Keeps j (remove_member p e u r t) (remove_member-Keeps p e u r t) w
  handle_member-Keeps u j (room_members (transfer r t)) w other declared =
      row-Keeps j (transfer_owner p u r t) (transfer_owner-Keeps p e u r t) w
  handle_member-Keeps u j (rooms (create_group d)) w other declared =
      row-Keeps j (create_group_room p e u d) (create_group_room-Keeps p e u d) w
  handle_member-Keeps u j (rooms (create_direct t)) w other declared =
      row-Keeps j (create_direct_room p e u t) (create_direct_room-Keeps p e u t) w
  handle_member-Keeps u j (rooms (update_group r d)) w other declared =
      row-Keeps j (update_group_room p u r d) (update_group_room-Keeps p e u r d) w
  handle_member-Keeps u j (rooms (create_group_and d nested)) w other declared =
      absurd (ground arith)
  handle_member-Keeps u j (rooms (update_group_and r d nested)) w other declared =
      absurd (ground arith)
  handle_member-Keeps u j (of_users (update_user_and t d nested)) w other declared =
      absurd (ground arith)
  handle_member-Keeps u j (rooms my_rooms) w other declared = refl
  handle_member-Keeps u j (rooms (one_direct_room r)) w other declared =
      row-Keeps j (find_one_direct_room p u r) (find_one_direct_room-Keeps p e u r) w
  handle_member-Keeps u j (rooms (delete_group r)) w other declared =
      ap (λ t. p.user.find_unique j t) (delete_group_room-Keeps p e u r w)
  handle_member-Keeps u j (rooms (delete_direct r)) w other declared =
      ap (λ t. p.user.find_unique j t) (delete_direct_room-Keeps p e u r w)
  handle_member-Keeps u j (schedules my_schedules) w other declared = refl
  handle_member-Keeps u j (schedules (room_schedules r)) w other declared =
      row-Keeps j (find_room_schedules p r) (find_room_schedules-Keeps p e r) w
  handle_member-Keeps u j (schedules (add_schedule r n t)) w other declared =
      row-Keeps j (create_schedule p e u r n t) (create_schedule-Keeps p e u r n t) w
  handle_member-Keeps u j (schedules (change_schedule r i d)) w other declared =
      row-Keeps j (update_schedule p u r i d) (update_schedule-Keeps p e u r i d) w
  handle_member-Keeps u j (schedules (remove_schedule r i)) w other declared =
      ap (λ t. p.user.find_unique j t) (delete_schedule-Keeps p e u r i w)
  handle_member-Keeps u j (schedules (ai_schedule parse ask r)) w other declared =
      answered-Keeps (find_user p j) (process_ai_schedule p parse e ask (λ w. w) u r)
        (λ w.
          ap (λ (t : List Room × List RoomMember × List User). p.user.find_unique j t.2)
            (process_ai_schedule-Keeps p parse e ask u r w))
        w
  handle_member-Keeps u j (of_users me) w other declared =
      row-Keeps j (get_me p u) (get_me-Keeps p e u) w
  handle_member-Keeps u j (of_users (update_user t d)) w other declared =
      answered-Keeps (find_user p j) (update_me p u t d)
        (λ w. ground (arith, (update_me_iff p u t j d w).1, id_iff u t, id_iff t j, id_iff u j)) w
  handle_member-Keeps u j (media (user_profile file)) w other declared =
      with_file-Keeps (find_user p j) accepts_image "이미지 파일만 업로드 가능합니다." file
        (λ f. answered (upload_user_profile p e f u))
        (λ f.
          answered-Keeps (find_user p j) (upload_user_profile p e f u)
            (upload_user_profile-Keeps p e f u j other))
        w
  handle_member-Keeps u j (media (room_cover r file)) w other declared =
      with_file-Keeps (find_user p j) accepts_image "이미지 파일만 업로드 가능합니다." file
        (λ f. answered (upload_room_cover p e f r u))
        (λ f. row-Keeps j (upload_room_cover p e f r u) (upload_room_cover-Keeps p e f r u)) w
  handle_member-Keeps u j (media (room_profile r file)) w other declared =
      with_file-Keeps (find_user p j) accepts_image "이미지 파일만 업로드 가능합니다." file
        (λ f. answered (upload_room_profile p e f r u))
        (λ f. row-Keeps j (upload_room_profile p e f r u) (upload_room_profile-Keeps p e f r u)) w
  handle_member-Keeps u j (media (message_attachment r file)) w other declared =
      with_file-Keeps (find_user p j) accepts_attachment "지원하지 않는 파일 형식입니다." file
        (λ f. answered (upload_message_attachment p e f r))
        (λ f.
          row-Keeps j (upload_message_attachment p e f r) (upload_message_attachment-Keeps p e f r))
        w
