-- ===== src/Schedules/Kept.antt =====
-- What the language model's schedules leave alone: every table but that of the schedules.
use talkertive_chat_app.Base.{ℕ, String, ◌≡◌, refl, Option, List, ◌⊎◌, inl, inr, arith}
use talkertive_chat_app.Schema.{RoomSchedule, Room, RoomMember, User}
use talkertive_chat_app.World.{World, Clients, Fresh}
use talkertive_chat_app.World.Keeps.{Keeps}
use talkertive_chat_app.Schedules.{
  Answer, add, move, cancel, no_match, unknown_type, unparsable, schedules_of,
  apply_schedule_action, process_ai_schedule,
}

-- Who there is, and who takes part where.
abbrev pub people : World → List Room × List RoomMember × List User
people w = (w.rooms, w.room_members, w.users)

module _ (p : Clients) where
  apply_schedule_action-Keeps :
      (parse : String → Option ℕ) (e : Fresh) (room_id : String) (a : Answer)
      (l : List RoomSchedule)
      → Keeps people (apply_schedule_action p parse e room_id a l)
  unfolding apply_schedule_action
  apply_schedule_action-Keeps parse e room_id (add name date) l w = ground arith
  apply_schedule_action-Keeps parse e room_id (move name date changed) l w = ground arith
  apply_schedule_action-Keeps parse e room_id (cancel name date) l w = ground arith
  apply_schedule_action-Keeps parse e room_id no_match l w = refl
  apply_schedule_action-Keeps parse e room_id unknown_type l w = refl
  apply_schedule_action-Keeps parse e room_id unparsable l w = refl

  pub process_ai_schedule_writes :
      (parse : String → Option ℕ) (e : Fresh) (ask : List RoomSchedule → Answer) (f : World → World)
      (u r : String) (w : World)
      → let w' = (process_ai_schedule p parse e ask f u r w).1 in
        (people w' ≡ people w) ⊎ (people w' ≡ people (f w))
  unfolding process_ai_schedule
  process_ai_schedule_writes parse e ask f u r w =
      let existing = schedules_of p r w in
      ground (arith, apply_schedule_action-Keeps parse e r (ask existing) existing (f w))

  -- Where nothing else happens meanwhile.
  pub process_ai_schedule-Keeps :
      (parse : String → Option ℕ) (e : Fresh) (ask : List RoomSchedule → Answer) (u r : String)
      → Keeps people (process_ai_schedule p parse e ask (λ w. w) u r)
  process_ai_schedule-Keeps parse e ask u r w =
      elim (process_ai_schedule_writes parse e ask (λ w. w) u r w) [
        | inl same ↦ same
        | inr same ↦ same
      ]
