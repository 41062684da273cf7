-- ===== src/Calendar/Room.antt =====
-- frontend/components/RoomScheduleCalendar.tsx: the calendar of one room, with the day that is open
-- and the forms. The requests go out over HTTP: a reply is a parameter of what is done with it, and
-- what a handler has captured is the calendar at the time of the click.
pub mod Selection
pub mod Races
use Prim.Native.Nat.{◌-◌}
use talkertive_chat_app.Base.{
  ℕ, String, Bool, true, false, not, ◌&&◌, ◌||◌, Option, none, some, List, [], ◌∷◌, ◌++◌, map,
  filter, ◌==◌, string_eq, nat_eq, if◌then◌else◌, sort, ascending, is_some,
}
use talkertive_chat_app.Base.Text.{trim}
use talkertive_chat_app.Schema.{RoomSchedule}
use talkertive_chat_app.Calendar.{
  View, Date, cell_key, prev_month, next_month, schedule_map, schedules_at, schedules_of_day,
}

pub record SelectedDay : Type 0 where
  pub day : ℕ
  pub schedules : List RoomSchedule
  -- where the cell stands: its left edge within the grid
  pub x : ℕ

pub record Form : Type 0 where
  pub name : String
  pub date : String
  pub hour : String
  pub minute : String

pub record EditForm : Type 0 where
  pub schedule_id : String
  pub form : Form

pub record RoomCalendar : Type 0 where
  pub view : View
  pub schedules : List RoomSchedule
  pub selected_day : Option SelectedDay
  pub add_form : Option Form
  pub edit_form : Option EditForm

-- `!form.name.trim() || !form.date || !form.hour || !form.minute`, negated
abbrev pub is_filled_in : Form → Bool
is_filled_in f =
    not (trim f.name == "") && not (f.date == "") && not (f.hour == "") && not (f.minute == "")

abbrev pub by_schedule_time : RoomSchedule → RoomSchedule → Bool
by_schedule_time = ascending (λ (s : RoomSchedule). s.time)

abbrev pub replace_schedule : String → RoomSchedule → RoomSchedule → RoomSchedule
replace_schedule id new s = if s.id == id then new else s

abbrev pub clear : RoomCalendar → RoomCalendar
clear c = record c { selected_day = none; add_form = none; edit_form = none }

unfoldable pub show_prev_month : RoomCalendar → RoomCalendar
unfolding prev_month
show_prev_month c = clear (record c { view = prev_month c.view })

unfoldable pub show_next_month : RoomCalendar → RoomCalendar
unfolding next_month
show_next_month c = clear (record c { view = next_month c.view })

-- A click outside of the calendar.
unfoldable pub close_outside : RoomCalendar → RoomCalendar
close_outside c = clear c

-- The reply of `getRoomSchedules`, for which each opening asks.
unfoldable pub on_schedules : List RoomSchedule → RoomCalendar → RoomCalendar
on_schedules ss c = record c { schedules = ss }

module _ (local_date : ℕ → Date) where
  abbrev pub schedules_on : View → ℕ → List RoomSchedule → List RoomSchedule
  schedules_on v d ss = schedules_of_day (λ (s : RoomSchedule). s.time) local_date (cell_key v d) ss

  abbrev pub same_cell : ℕ → ℕ → Option SelectedDay → Bool
  same_cell d x none = false
  same_cell d x (some s) = s.day == d && s.x == x

  unfoldable pub handle_day_click : ℕ → ℕ → RoomCalendar → RoomCalendar
  unfolding cell_key schedule_map
  handle_day_click d x c =
      let day_schedules =
        schedules_at (λ (s : RoomSchedule). s.time) local_date (cell_key c.view d)
          (schedule_map (λ (s : RoomSchedule). s.time) local_date c.schedules []) in
      if same_cell d x c.selected_day then clear c else record c {
        selected_day = some (record { day = d; schedules = day_schedules; x = x });
        add_form = none;
        edit_form = none;
      }

  -- `if (selectedDay) syncSelectedDay(updated, selectedDay.day)`: the month and the day are those
  -- captured, the open day that is rewritten is the present one.
  abbrev pub sync_selected_day :
      RoomCalendar → List RoomSchedule → Option SelectedDay → Option SelectedDay
  sync_selected_day seen updated none = none
  sync_selected_day seen updated (some prev) = elim seen.selected_day [
    | none ↦ some prev
    | some s ↦ some (record prev { schedules = schedules_on seen.view s.day updated })
  ]

  -- The list that a handler has made becomes the calendar's.
  abbrev pub with_schedules : RoomCalendar → List RoomSchedule → RoomCalendar → RoomCalendar
  with_schedules seen updated c = record c {
    schedules = updated;
    selected_day = sync_selected_day seen updated c.selected_day;
  }

  unfoldable pub handle_add_schedule :
      RoomCalendar → Option RoomSchedule → RoomCalendar → RoomCalendar
  handle_add_schedule seen reply c = elim seen.add_form [
    | none ↦ c
    | some f ↦ elim reply [
      | none ↦ c
      | some created ↦
          if is_filled_in f
          then record (with_schedules seen (sort by_schedule_time (seen.schedules ++ created ∷ []))
              c) { add_form = none }
          else c
    ]
  ]

  unfoldable pub handle_update_schedule :
      RoomCalendar → Option RoomSchedule → RoomCalendar → RoomCalendar
  handle_update_schedule seen reply c = elim seen.edit_form [
    | none ↦ c
    | some f ↦ elim reply [
      | none ↦ c
      | some updated ↦
          if is_filled_in f.form
          then record (with_schedules seen
              (sort by_schedule_time (map (replace_schedule f.schedule_id updated) seen.schedules))
              c) { edit_form = none }
          else c
    ]
  ]

  abbrev pub edits : String → Option EditForm → Bool
  edits id none = false
  edits id (some f) = f.schedule_id == id

  unfoldable pub handle_delete_schedule : RoomCalendar → String → Bool → RoomCalendar → RoomCalendar
  handle_delete_schedule seen id deleted c =
      let next = with_schedules seen (filter (λ s. not (s.id == id)) seen.schedules) c in
      if deleted
      then (if edits id seen.edit_form then record next { edit_form = none } else next)
      else c
