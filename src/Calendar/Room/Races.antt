-- ===== src/Calendar/Room/Races.antt =====
-- What two requests of the calendar do that overlap: each handler goes on, when its answer comes,
-- with what the calendar held at its click.
use talkertive_chat_app.Base.{
  ℕ, String, true, false, not, ◌≡◌, refl, some, List, ◌==◌, string_eq, In, In-filter, filter, arith,
  id_iff,
}
use talkertive_chat_app.Schema.{RoomSchedule}
use talkertive_chat_app.Calendar.{Date, cell_key, key_of, schedules_of_day}
use talkertive_chat_app.Calendar.Room.{
  RoomCalendar, SelectedDay, schedules_on, handle_delete_schedule,
}

module _ (local_date : ℕ → Date) where
  deleted-schedules :
      (seen c : RoomCalendar) (id : String)
      → (handle_delete_schedule local_date seen id true c).schedules
        ≡ filter (λ s. not (s.id == id)) seen.schedules
  unfolding handle_delete_schedule
  deleted-schedules seen c id = ground arith

  schedules_on-key :
      (c : RoomCalendar) (d : ℕ) (ss : List RoomSchedule) (x : RoomSchedule)
      → In x (schedules_on local_date c.view d ss)
      → key_of (λ (s : RoomSchedule). s.time) local_date x ≡ cell_key c.view d
  unfolding schedules_of_day
  schedules_on-key c d ss x h =
      (id_iff _ _).0
        ((In-filter (λ s. key_of (λ (s : RoomSchedule). s.time) local_date s == cell_key c.view d) x
            ss).0
          h).1

  deleted-selected :
      (seen c : RoomCalendar) (id : String) (opened now : SelectedDay)
      → seen.selected_day ≡ some opened
      → c.selected_day ≡ some now
      → (handle_delete_schedule local_date seen id true c).selected_day
        ≡ some (record now {
          schedules =
              schedules_on local_date seen.view opened.day
                (filter (λ s. not (s.id == id)) seen.schedules);
        })
  unfolding handle_delete_schedule
  deleted-selected seen c id opened now q r = ground arith

  -- Of two deletions from one list of schedules that both succeed, and of which neither waits for
  -- the other, the first is lost from view: the list shows its schedule again. And where another
  -- day has been opened before the answer comes, that day is left with schedules of the day that
  -- was open at the click, and with none of another day.
  pub handle_delete_schedule-overlap :
      (seen c : RoomCalendar) (s : RoomSchedule) (id : String) (opened now : SelectedDay)
      → In s seen.schedules
      → (s.id == id) ≡ false
      → seen.selected_day ≡ some opened
      → c.selected_day ≡ some now
      → let first = handle_delete_schedule local_date seen s.id true c in
        let second = handle_delete_schedule local_date seen id true first in
        In s second.schedules
        × (shown : SelectedDay) × (first.selected_day ≡ some shown)
        × (shown.day ≡ now.day)
        × ((x : RoomSchedule)
            → In x shown.schedules
            → key_of (λ (y : RoomSchedule). y.time) local_date x ≡ cell_key seen.view opened.day)
  handle_delete_schedule-overlap seen c s id opened now stored other was is = (
    rw (deleted-schedules seen (handle_delete_schedule local_date seen s.id true c) id)
        ((In-filter (λ y. not (y.id == id)) s seen.schedules).1 (stored, ground arith)),
    _,
    deleted-selected seen c s.id opened now was is,
    refl,
    λ x h. schedules_on-key seen opened.day _ x h,
  )
