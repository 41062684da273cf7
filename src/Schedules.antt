-- ===== src/Schedules.antt =====
-- backend/src/schedules/schedules.service.ts, `SchedulesService`: the schedules of a room, and
-- those that a language model adds, moves or cancels.
pub mod Kept
pub mod Matching
pub mod Isolation
use mathlib.Core.Option
use talkertive_chat_app.Base.{
  ℕ, String, Bool, true, false, not, ◌&&◌, Option, none, some, List, [], ◌∷◌, map, ◌==◌, string_eq,
  if◌then◌else◌, is_none, ascending,
}
use talkertive_chat_app.Prisma.{whole}
use talkertive_chat_app.Schema.{Room, RoomSchedule}
use talkertive_chat_app.World.{
  World, Clients, Fresh, Action, pure, throw, gets, modify, ◌>>=◌, ◌>>◌, throw_if, not_found,
  forbidden, bad_request, internal_server_error, type_error, create_schedule_row,
  update_schedule_row, delete_schedule_row,
}
use talkertive_chat_app.RoomMembers.{find_member, holds_owner}
use talkertive_chat_app.Rooms.Kinds.{is_group}
use talkertive_chat_app.Rooms.Queries.{find_room_of, takes_part_in}
use Matching.{find_matching_schedule}

-- `UpdateScheduleDto`; `time` stands for the time that its ISO text denotes.
pub record UpdateScheduleDto : Type 0 where
  pub name : Option String
  pub time : Option ℕ

-- `...(dto.name && { name: dto.name })`: an empty text changes nothing.
abbrev pub or_kept : Option String → String → String
or_kept none old = old
or_kept (some new) old = if new == "" then old else new

abbrev pub time_or_kept : Option ℕ → ℕ → ℕ
time_or_kept none old = old
time_or_kept (some new) old = new

abbrev pub apply_update : UpdateScheduleDto → RoomSchedule → RoomSchedule
apply_update d s = record s { name = or_kept d.name s.name; time = time_or_kept d.time s.time }

abbrev pub new_schedule : Fresh → String → String → ℕ → RoomSchedule
new_schedule e room_id name time = record {
  id = e.id;
  room_id = room_id;
  name = name;
  time = time;
  created_at = e.now;
}

-- What `JSON.parse` makes of the model's answer: `ClaudeScheduleResult`, a value of none of its
-- forms, or a throw.
pub data Answer : Type 0 where
  add : String → String → Answer
  move : String → String → String → Answer
  cancel : String → String → Answer
  no_match unknown_type unparsable : Answer

-- `!schedule || schedule.roomId !== roomId`
abbrev pub is_outside : String → Option RoomSchedule → Bool
is_outside room_id none = true
is_outside room_id (some s) = not (s.room_id == room_id)

abbrev pub by_time : RoomSchedule → RoomSchedule → Bool
by_time = ascending (λ s. s.time)

module _ (p : Clients) where
  unfoldable pub assert_owner : String → String → Action (Unit {0})
  assert_owner user_id room_id = do
    m ← gets (find_member p room_id user_id)
    throw_if (is_none m) (not_found "채팅방을 찾을 수 없습니다.")
    throw_if (not (holds_owner m)) (forbidden "방장만 일정을 관리할 수 있습니다.")

  unfoldable pub assert_schedule_exists : String → String → Action (Unit {0})
  assert_schedule_exists schedule_id room_id = do
    s ← gets (λ w. p.schedule.find_unique schedule_id w.schedules)
    throw_if (is_outside room_id s) (not_found "일정을 찾을 수 없습니다.")

  abbrev pub in_my_rooms : String → World → RoomSchedule → Bool
  in_my_rooms user_id w s = elim (p.room.find_unique s.room_id w.rooms) [
    | none ↦ false
    | some r ↦ is_group r.type && takes_part_in p user_id w r
  ]

  abbrev pub with_room_name : World → RoomSchedule → RoomSchedule × Option String
  with_room_name w s = elim (p.room.find_unique s.room_id w.rooms) [
    | none ↦ (s, none)
    | some r ↦ (s, r.name)
  ]

  unfoldable pub find_my_schedules : String → World → List (RoomSchedule × Option String)
  find_my_schedules user_id w =
      map (with_room_name w)
        (p.schedule.find_page (whole by_time) (in_my_rooms user_id w) w.schedules)

  abbrev pub schedules_of : String → World → List RoomSchedule
  schedules_of room_id w =
      p.schedule.find_page (whole by_time) (λ s. s.room_id == room_id) w.schedules

  unfoldable pub find_room_schedules : String → Action (List RoomSchedule)
  find_room_schedules room_id = do
    room ← gets (find_room_of p is_group room_id)
    throw_if (is_none room) (not_found "채팅방을 찾을 수 없습니다.")
    gets (schedules_of room_id)

  unfoldable pub create_schedule : Fresh → String → String → String → ℕ → Action RoomSchedule
  unfolding assert_owner create_schedule_row
  create_schedule e user_id room_id name time = do
    assert_owner user_id room_id
    create_schedule_row p (new_schedule e room_id name time)

  unfoldable pub update_schedule :
      String → String → String → UpdateScheduleDto → Action RoomSchedule
  unfolding assert_owner assert_schedule_exists update_schedule_row
  update_schedule user_id room_id schedule_id d = do
    assert_owner user_id room_id
    assert_schedule_exists schedule_id room_id
    update_schedule_row p schedule_id (apply_update d)

  unfoldable pub delete_schedule : String → String → String → Action (Unit {0})
  unfolding assert_owner assert_schedule_exists delete_schedule_row
  delete_schedule user_id room_id schedule_id = do
    assert_owner user_id room_id
    assert_schedule_exists schedule_id room_id
    delete_schedule_row p schedule_id
    pure tt

  -- `parse` is `parseClaudeDate` in the server's time zone, none for an invalid date; a write of
  -- an invalid date is refused by the client's validation.
  module _ (parse : String → Option ℕ) where
    abbrev pub at_date : Option ℕ → (ℕ → Action RoomSchedule) → Action RoomSchedule
    at_date none k = throw type_error
    at_date (some t) k = k t

    unfoldable pub apply_schedule_action :
        Fresh → String → Answer → List RoomSchedule → Action RoomSchedule
    unfolding create_schedule_row update_schedule_row delete_schedule_row
    apply_schedule_action e room_id (add name date) existing =
        at_date (parse date) λ t. create_schedule_row p (new_schedule e room_id name t)
    apply_schedule_action e room_id (move name date changed) existing =
        elim (find_matching_schedule (parse date) name existing) [
          | none ↦ throw (not_found "변경할 일정을 찾을 수 없습니다.")
          | some target ↦
              at_date (parse changed)
                λ t. update_schedule_row p target.id (λ s. record s { name = name; time = t })
        ]
    apply_schedule_action e room_id (cancel name date) existing =
        elim (find_matching_schedule (parse date) name existing) [
          | none ↦ throw (not_found "취소할 일정을 찾을 수 없습니다.")
          | some target ↦ delete_schedule_row p target.id
        ]
    apply_schedule_action e room_id no_match existing = throw (not_found "일치하는 일정을 찾을 수 없습니다.")
    apply_schedule_action e room_id unknown_type existing = throw (bad_request "알 수 없는 액션 타입입니다.")
    apply_schedule_action e room_id unparsable existing =
        throw (internal_server_error "AI 응답 파싱에 실패했습니다.")

    -- `ask` is the model's answer to the prompt that holds the room's schedules; `meanwhile` is
    -- what other requests do until it comes.
    unfoldable pub process_ai_schedule :
        Fresh
        → (List RoomSchedule → Answer)
        → (World → World)
        → String
        → String
        → Action RoomSchedule
    unfolding assert_owner apply_schedule_action
    process_ai_schedule e ask meanwhile user_id room_id = do
      assert_owner user_id room_id
      existing ← gets (schedules_of room_id)
      modify meanwhile
      apply_schedule_action e room_id (ask existing) existing
