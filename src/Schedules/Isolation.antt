-- ===== src/Schedules/Isolation.antt =====
-- What the owner of one room can do to the schedules of another, by hand or through the language
-- model: nothing; and what the list of a room holds.
use talkertive_chat_app.Base.{
  ℕ, String, Bool, true, false, ◌≡◌, ◌≢◌, ◌↔◌, Option, some, List, In, arith, id_iff, is_some, ◌==◌,
  string_eq, inl, inr, Option-cases, pair_eq, subst, IsSorted, ascending-IsOrder,
}
use talkertive_chat_app.Prisma.{whole}
use talkertive_chat_app.Schema.{RoomSchedule}
use talkertive_chat_app.World.{World, Clients, Fresh, ok, is_ok}
use talkertive_chat_app.RoomMembers.{find_member, holds_owner}
use talkertive_chat_app.Rooms.Kinds.{is_group}
use talkertive_chat_app.Rooms.Queries.{find_room_of}
use talkertive_chat_app.Schedules.{
  create_schedule, update_schedule, delete_schedule, process_ai_schedule, find_room_schedules,
  new_schedule, apply_update, UpdateScheduleDto, Answer, schedules_of, by_time,
  apply_schedule_action, add, move, cancel, no_match, unknown_type, unparsable,
}
use talkertive_chat_app.Schedules.Matching.{find_matching_schedule, find_matching_schedule-In}

module _ (p : Clients) where
  abbrev pub find_schedule : String → World → Option RoomSchedule
  find_schedule id w = p.schedule.find_unique id w.schedules

  -- A user who is not an owner of the room changes no schedule through it; and whatever an owner
  -- creates, changes or deletes, a schedule of another room stays as it is.
  schedules_isolated :
      (e : Fresh) (user_id room_id schedule_id name : String) (time : ℕ) (d : UpdateScheduleDto)
      (w : World)
      → (holds_owner (find_member p room_id user_id w) ≡ false
          → ((create_schedule p e user_id room_id name time w).1 ≡ w)
            × ((update_schedule p user_id room_id schedule_id d w).1 ≡ w)
            × ((delete_schedule p user_id room_id schedule_id w).1 ≡ w))
        × ((j : String) (s : RoomSchedule)
            → find_schedule j w ≡ some s
            → s.room_id ≢ room_id
            → (find_schedule j (create_schedule p e user_id room_id name time w).1 ≡ some s)
              × (find_schedule j (update_schedule p user_id room_id schedule_id d w).1 ≡ some s)
              × (find_schedule j (delete_schedule p user_id room_id schedule_id w).1 ≡ some s))
  unfolding create_schedule update_schedule delete_schedule
  schedules_isolated e user_id room_id schedule_id name time d w = (
    λ h. (ground arith, ground arith, ground arith),
    λ j s found other. (
      ground (
        arith,
        id_iff e.id j,
        p.schedule.find-admits (new_schedule e room_id name time) w.schedules,
        p.schedule.find-create (new_schedule e room_id name time) w.schedules j,
      ),
      elim (Option-cases (find_schedule schedule_id w)) [
        | inl missing ↦ ground arith
        | inr (m, q) ↦ ground (
          arith,
          id_iff schedule_id j,
          id_iff m.room_id room_id,
          p.schedule.find-update schedule_id (apply_update d) w.schedules j m q
              (p.schedule.find-key q),
        )
      ],
      elim (Option-cases (find_schedule schedule_id w)) [
        | inl missing ↦ ground arith
        | inr (m, q) ↦ ground (
          arith,
          id_iff schedule_id j,
          id_iff m.room_id room_id,
          p.schedule.find-delete schedule_id w.schedules j,
        )
      ],
    ),
  )

  -- A room's schedules are listed exactly where the room is there and a group room: all of them,
  -- none of another room, the earliest first.
  find_room_schedules_lem :
      (room_id : String) (w : World)
      → let (res, w') = find_room_schedules p room_id w in
        (is_ok res ≡ is_some (find_room_of p is_group room_id w))
        × (w' ≡ w)
        × ((l : List RoomSchedule)
            → res ≡ ok l
            → IsSorted (by_time) l
              × ((s : RoomSchedule)
                  → In s l ↔ ((find_schedule s.id w ≡ some s) × (s.room_id ≡ room_id))))
  unfolding find_room_schedules
  find_room_schedules_lem room_id w = (ground arith, ground arith, λ l h. listed l (ground arith))
    where
      q : RoomSchedule → Bool
      q s = s.room_id == room_id

      listed :
          (l : List RoomSchedule)
          → l ≡ schedules_of p room_id w
          → IsSorted by_time l
            × ((s : RoomSchedule)
                → In s l ↔ ((find_schedule s.id w ≡ some s) × (s.room_id ≡ room_id)))
      listed l e = rw e (
        p.schedule.find_page-IsSorted (whole by_time) q w.schedules
            (ascending-IsOrder (λ s. s.time)),
        λ s. (
          λ h.
              let (found, here) =
                (p.schedule.In-find_many q w.schedules s).0
                  (p.schedule.In-find_page (whole by_time) q w.schedules s h) in
              (found, (id_iff s.room_id room_id).0 here),
          λ h.
              p.schedule.In-find_page_whole by_time q w.schedules s (
                (p.schedule.In-find_many q w.schedules s).1
                  (h.0, (id_iff s.room_id room_id).1 h.1)),
        ),
      )

  -- An action of the model on schedules of which `j` is none leaves the schedule `j` as it is.
  apply_schedule_action-find :
      (parse : String → Option ℕ) (e : Fresh) (room_id : String) (a : Answer)
      → (existing : List RoomSchedule) (w : World) (j : String) (s : RoomSchedule)
      → find_schedule j w ≡ some s
      → ((x : RoomSchedule) → In x existing → x.id ≢ j)
      → find_schedule j (apply_schedule_action p parse e room_id a existing w).1 ≡ some s
  unfolding apply_schedule_action
  apply_schedule_action-find parse e room_id (add name date) existing w j s found apart =
      elim (Option-cases (parse date)) [
        | inl invalid ↦ ground arith
        | inr (t, valid) ↦
            let row = new_schedule e room_id name t in
            ground (
              arith,
              id_iff e.id j,
              p.schedule.find-admits row w.schedules,
              p.schedule.find-create row w.schedules j,
            )
      ]
  apply_schedule_action-find parse e room_id (move name date changed) existing w j s found apart =
      elim (Option-cases (find_matching_schedule (parse date) name existing)) [
        | inl nothing ↦ ground arith
        | inr (x, chosen) ↦
            let ne = apart x (find_matching_schedule-In (parse date) name existing x chosen) in
            elim (Option-cases (parse changed)) [
              | inl invalid ↦ ground arith
              | inr (t, valid) ↦ moved name t x ne chosen valid
            ]
      ]
    where
      moved :
          (name : String) (t : ℕ) (x : RoomSchedule)
          → x.id ≢ j
          → find_matching_schedule (parse date) name existing ≡ some x
          → parse changed ≡ some t
          → find_schedule j
              (apply_schedule_action p parse e room_id (move name date changed) existing w).1
            ≡ some s
      moved name t x ne chosen valid = elim (Option-cases (find_schedule x.id w)) [
        | inl missing ↦ ground arith
        | inr (m, q) ↦ ground (
          arith,
          id_iff x.id j,
          p.schedule.find-update x.id (λ s. record s { name = name; time = t }) w.schedules j m q
              (p.schedule.find-key q),
        )
      ]
  apply_schedule_action-find parse e room_id (cancel name date) existing w j s found apart =
      elim (Option-cases (find_matching_schedule (parse date) name existing)) [
        | inl nothing ↦ ground arith
        | inr (x, chosen) ↦
            let ne = apart x (find_matching_schedule-In (parse date) name existing x chosen) in
            ground (arith, id_iff x.id j, p.schedule.find-delete x.id w.schedules j)
      ]
  apply_schedule_action-find parse e room_id no_match existing w j s found apart = found
  apply_schedule_action-find parse e room_id unknown_type existing w j s found apart = found
  apply_schedule_action-find parse e room_id unparsable existing w j s found apart = found

  -- Whatever the language model answers, and whatever else is done while it thinks, a request of
  -- one room's owner leaves each schedule alone that was not in that room when the request came:
  -- the row that it then has is the row that it has in the end. Of one who is not an owner, the
  -- request fails at once.
  pub process_ai_schedule_isolated :
      (parse : String → Option ℕ) (e : Fresh) (ask : List RoomSchedule → Answer)
      (meanwhile : World → World)
      → (user_id room_id : String) (w : World)
      → let (res, w') = process_ai_schedule p parse e ask meanwhile user_id room_id w in
        (holds_owner (find_member p room_id user_id w) ≡ false → (is_ok res ≡ false) × (w' ≡ w))
        × ((j : String) (s : RoomSchedule)
            → holds_owner (find_member p room_id user_id w) ≡ true
            → find_schedule j (meanwhile w) ≡ some s
            → ((x : RoomSchedule) → find_schedule j w ≡ some x → x.room_id ≢ room_id)
            → find_schedule j w' ≡ some s)
  unfolding process_ai_schedule
  process_ai_schedule_isolated parse e ask meanwhile user_id room_id w = (
    λ h. (ground arith, ground arith),
    λ j s own found apart.
        let existing = schedules_of p room_id w in
        let q = λ (x : RoomSchedule). x.room_id == room_id in
        let kept =
          apply_schedule_action-find parse e room_id (ask existing) existing (meanwhile w) j s found
            (λ x h same.
              let (stored, here) =
                (p.schedule.In-find_many q w.schedules x).0
                  (p.schedule.In-find_page (whole by_time) q w.schedules x h) in
              apart x (subst (λ k. find_schedule k w ≡ some x) same stored)
                ((id_iff x.room_id room_id).0 here)) in
        ground (arith, kept),
  )
