-- ===== src/Calendar/Room/Selection.antt =====
-- The schedules of the open day, and the order of the calendar's list.
use talkertive_chat_app.Base.{
  ℕ, String, Bool, true, false, not, ◌≡◌, refl, sym, subst, Option, none, some, List, [], ◌∷◌, ◌++◌,
  All, map, filter, ◌==◌, string_eq, nat_eq, sort, IsSorted, sort-IsSorted, ascending-IsOrder, inl,
  inr, ◌⊎◌, arith, Option-cases, Bool-cases,
}
use talkertive_chat_app.Schema.{RoomSchedule}
use talkertive_chat_app.Calendar.{Date, cell_key}
use talkertive_chat_app.Calendar.Days.{schedule_map-schedules_of_day}
use talkertive_chat_app.Calendar.Room.{
  RoomCalendar, SelectedDay, Form, EditForm, by_schedule_time, schedules_on, with_schedules,
  same_cell, replace_schedule, is_filled_in, show_prev_month, show_next_month, close_outside,
  handle_day_click, handle_add_schedule, handle_update_schedule, handle_delete_schedule,
}

-- What the user does with an open calendar; a request is answered before anything else happens.
pub data CalendarAction : Type 0 where
  prev next outside : CalendarAction
  click : ℕ → ℕ → CalendarAction
  set_add_form : Option Form → CalendarAction
  set_edit_form : Option EditForm → CalendarAction
  add update : Option RoomSchedule → CalendarAction
  delete : String → Bool → CalendarAction

module _ (local_date : ℕ → Date) where
  -- The list is in the order of time, and the open day shows what the list holds for it.
  pub record IsConsistent (c : RoomCalendar) : Type 0 where
    pub sorted : IsSorted by_schedule_time c.schedules
    pub selected :
        (s : SelectedDay)
        → c.selected_day ≡ some s
        → s.schedules ≡ schedules_on local_date c.view s.day c.schedules

  unfoldable pub act : CalendarAction → RoomCalendar → RoomCalendar
  unfolding show_prev_month show_next_month close_outside handle_day_click handle_add_schedule
      handle_update_schedule handle_delete_schedule
  act prev c = show_prev_month c
  act next c = show_next_month c
  act outside c = close_outside c
  act (click d x) c = handle_day_click local_date d x c
  act (set_add_form f) c = record c { add_form = f }
  act (set_edit_form f) c = record c { edit_form = f }
  act (add reply) c = handle_add_schedule local_date c reply c
  act (update reply) c = handle_update_schedule local_date c reply c
  act (delete id deleted) c = handle_delete_schedule local_date c id deleted c

  All-filter :
      (P : RoomSchedule → Type 0) (q : RoomSchedule → Bool) (xs : List RoomSchedule)
      → All P xs
      → All P (filter q xs)
  All-filter P q [] h = tt
  All-filter P q (x ∷ xs) (e, h) = ground (arith, All-filter P q xs h)

  IsSorted-filter :
      (q : RoomSchedule → Bool) (xs : List RoomSchedule)
      → IsSorted by_schedule_time xs
      → IsSorted by_schedule_time (filter q xs)
  IsSorted-filter q [] h = tt
  IsSorted-filter q (x ∷ xs) (e, h) =
      ground (arith, IsSorted-filter q xs h, All-filter (λ y. by_schedule_time x y ≡ true) q xs e)

  closed :
      (c c' : RoomCalendar)
      → c'.selected_day ≡ none
      → c'.schedules ≡ c.schedules
      → IsConsistent c
      → IsConsistent c'
  closed c c' shut same h = record {
    sorted = rw same h.sorted;
    selected = λ s e. absurd (ground arith);
  }

  synced :
      (ss : List RoomSchedule) (c c' : RoomCalendar)
      → IsSorted by_schedule_time ss
      → c'.schedules ≡ ss
      → c'.view ≡ c.view
      → c'.selected_day ≡ (with_schedules local_date c ss c).selected_day
      → IsConsistent c'
  synced ss c c' sorted list view day = record {
    sorted = rw list sorted;
    selected = λ s e. elim (Option-cases c.selected_day) [
      | inl shut ↦ absurd (ground arith)
      | inr (old, was) ↦ ground arith
    ];
  }

  sort-IsSorted_by_time :
      (ss : List RoomSchedule) → IsSorted by_schedule_time (sort by_schedule_time ss)
  sort-IsSorted_by_time ss =
      sort-IsSorted by_schedule_time (ascending-IsOrder (λ (s : RoomSchedule). s.time)) ss

  -- A handler leaves the calendar as it is or puts a list in it, in the order of time.
  abbrev Stores : RoomCalendar → RoomCalendar → Type 0
  Stores c c' =
      (c' ≡ c)
      ⊎ ((ss : List RoomSchedule) × (IsSorted by_schedule_time c.schedules
            → IsSorted by_schedule_time ss)
          × (c'.schedules ≡ ss)
          × (c'.view ≡ c.view)
          × (c'.selected_day ≡ (with_schedules local_date c ss c).selected_day))

  stored : (c c' : RoomCalendar) → Stores c c' → IsConsistent c → IsConsistent c'
  stored c c' (inl same) h = subst IsConsistent (sym same) h
  stored c c' (inr (ss, sorts, list, view, day)) h = synced ss c c' (sorts h.sorted) list view day

  add-Stores :
      (reply : Option RoomSchedule) (c : RoomCalendar)
      → Stores c (handle_add_schedule local_date c reply c)
  unfolding handle_add_schedule
  add-Stores none c = inl (ground arith)
  add-Stores (some created) c =
      let ss = sort by_schedule_time (c.schedules ++ created ∷ []) in
      elim (Option-cases c.add_form) [
        | inl none_open ↦ inl (ground arith)
        | inr (f, was) ↦ elim (Bool-cases (is_filled_in f)) [
          | inl full ↦ inr (
            ss,
            λ h. sort-IsSorted_by_time (c.schedules ++ created ∷ []),
            ground arith,
            ground arith,
            ground arith,
          )
          | inr empty ↦ inl (ground arith)
        ]
      ]

  update-Stores :
      (reply : Option RoomSchedule) (c : RoomCalendar)
      → Stores c (handle_update_schedule local_date c reply c)
  unfolding handle_update_schedule
  update-Stores none c = inl (ground arith)
  update-Stores (some new) c = elim (Option-cases c.edit_form) [
    | inl none_open ↦ inl (ground arith)
    | inr (f, was) ↦
        let changed = map (replace_schedule f.schedule_id new) c.schedules in
        elim (Bool-cases (is_filled_in f.form)) [
          | inl full ↦ inr (
            sort by_schedule_time changed,
            λ h. sort-IsSorted_by_time changed,
            ground arith,
            ground arith,
            ground arith,
          )
          | inr empty ↦ inl (ground arith)
        ]
  ]

  delete-Stores :
      (id : String) (deleted : Bool) (c : RoomCalendar)
      → Stores c (handle_delete_schedule local_date c id deleted c)
  unfolding handle_delete_schedule
  delete-Stores id false c = inl refl
  delete-Stores id true c = inr (
    filter (λ s. not (s.id == id)) c.schedules,
    IsSorted-filter (λ s. not (s.id == id)) c.schedules,
    ground arith,
    ground arith,
    ground arith,
  )

  clicked :
      (d x : ℕ) (c : RoomCalendar)
      → IsConsistent c
      → IsConsistent (handle_day_click local_date d x c)
  unfolding handle_day_click
  clicked d x c h = elim (Bool-cases (same_cell local_date d x c.selected_day)) [
    | inl again ↦ closed c _ (ground arith) (ground arith) h
    | inr other ↦ record {
      sorted = ground arith;
      selected = λ s e. ground (
        arith,
        schedule_map-schedules_of_day (λ (s : RoomSchedule). s.time) local_date (cell_key c.view d)
            c.schedules,
      );
    }
  ]

  -- Whatever the user does with the calendar, its list stays in the order of time, and the open day
  -- shows what the list holds for that day, where each request is answered before anything else
  -- happens.
  pub act-IsConsistent :
      (a : CalendarAction) (c : RoomCalendar) → IsConsistent c → IsConsistent (act a c)
  unfolding act
  act-IsConsistent prev c h = closed c _ refl refl h
  act-IsConsistent next c h = closed c _ refl refl h
  act-IsConsistent outside c h = closed c _ refl refl h
  act-IsConsistent (click d x) c h = clicked d x c h
  act-IsConsistent (set_add_form f) c h = record { sorted = h.sorted; selected = h.selected }
  act-IsConsistent (set_edit_form f) c h = record { sorted = h.sorted; selected = h.selected }
  act-IsConsistent (add reply) c h = stored c _ (add-Stores reply c) h
  act-IsConsistent (update reply) c h = stored c _ (update-Stores reply c) h
  act-IsConsistent (delete id deleted) c h = stored c _ (delete-Stores id deleted c) h
