-- ===== src/Tests/Requests.antt =====
-- The theorems on the controllers, the administrator's pages, accounts and the calendar at concrete
-- data.
use talkertive_chat_app.Base.{
  ℕ, ◌+◌, String, Bool, true, false, ◌≡◌, ◌≤◌, refl, none, some, arith, [], ◌∷◌, ◌==◌, string_eq,
  In, inl,
}
use talkertive_chat_app.World.{err, is_ok, unauthorized}
use talkertive_chat_app.World.Memory.{memory}
use talkertive_chat_app.Api.{
  member, invite, room_members, users, remove_user, update_user, handle, handle_member,
}
use talkertive_chat_app.Api.Access.{handle_lem}
use talkertive_chat_app.Api.Escalation.{update_user-escalates}
use talkertive_chat_app.Api.Accounts.{handle_member-Keeps}
use talkertive_chat_app.Users.{UpdateUserDto, find_user}
use talkertive_chat_app.Admin.Statistics.{last_30_days, total, recent, daily_counts-total}
use talkertive_chat_app.SignUp.{sign_up, find_by_email, new_user}
use talkertive_chat_app.SignUp.Accounts.{is_signed_up, sign_up_lem, sign_up-authorize}
use talkertive_chat_app.Login.{authorize, signed_in}
use talkertive_chat_app.Calendar.{View, Date, first_day}
use talkertive_chat_app.Calendar.Grid.{cells-weeks}
use talkertive_chat_app.Schema.{RoomSchedule}
use talkertive_chat_app.Calendar.Room.{RoomCalendar, SelectedDay, handle_delete_schedule}
use talkertive_chat_app.Calendar.Room.Races.{handle_delete_schedule-overlap}
use talkertive_chat_app.Calendar.Room.Selection.{add, act, IsConsistent, act-IsConsistent}
use talkertive_chat_app.Tests.Samples.{chat, next, meeting, user_named}

handle_lem_example :
    handle memory next none (member (room_members (invite "study" "carol"))) chat
    ≡ (err unauthorized, chat)
handle_lem_example =
    (handle_lem memory next (room_members (invite "study" "carol")) (remove_user "bob") "bob"
      chat).0

abbrev renamed : UpdateUserDto
renamed = record { name = some (some "Bobby"); description = none; image = none; role = none }

handle_member-Keeps_example :
    find_user memory "alice"
      (handle_member memory next "bob" (users (update_user "bob" renamed)) chat).1
    ≡ some (user_named "alice")
unfolding memory
handle_member-Keeps_example =
    handle_member-Keeps memory next "bob" "alice" (users (update_user "bob" renamed)) chat refl refl

abbrev promoted : UpdateUserDto
promoted = record renamed { role = some "ADMIN" }

update_user-escalates_example :
    is_ok (handle memory next (some "bob") (member (users (update_user "bob" promoted))) chat).0
    ≡ true
unfolding memory
update_user-escalates_example =
    (update_user-escalates memory next next "bob" (user_named "bob") promoted (remove_user "alice")
      chat refl refl).0

-- Nine hours ahead of UTC, on the fortieth day; of the two of these days, one came after nine.
abbrev korea : ℕ
korea = 32_400_000

abbrev today : ℕ
today = 3_456_040_000

daily_counts-total_example :
    total (last_30_days korea today (3_456_000_100 ∷ 3_400_000_000 ∷ [])) + 1 ≡ 2
unfolding recent
daily_counts-total_example =
    (daily_counts-total korea today (3_456_000_100 ∷ 3_400_000_000 ∷ []) (omega arith)).0

abbrev hashed : String → String
hashed password = "#"

abbrev compared : String → String → Bool
compared password hash = hash == "#"

sign_up_lem_example :
    is_signed_up (sign_up memory hashed next "dan@example.org" "short" "Dan" chat).0 ≡ false
unfolding memory
sign_up_lem_example = (sign_up_lem memory hashed next "dan@example.org" "short" "Dan" chat).0

sign_up-authorize_example :
    (authorize
      (λ a.
        find_by_email memory hashed a
          (sign_up memory hashed next "dan@example.org" "password1" "Dan" chat).1)
      compared
      10
      "ip"
      (some (record { email = "dan@example.org"; password = "password1" }))
      []).0
    ≡ signed_in (new_user memory hashed next "dan@example.org" "password1" "Dan")
unfolding memory sign_up
sign_up-authorize_example =
    sign_up-authorize memory hashed compared next "dan@example.org" "password1" "Dan" chat 10 "ip"
      [] refl refl refl refl refl

abbrev february : View
february = record { year = 2024; month = 1 }

cells-weeks_example : first_day february ≤ 6
cells-weeks_example = (cells-weeks 6 february (omega arith)).2

abbrev utc_date : ℕ → Date
utc_date t = record { year = 1970; month = 0; day = t }

abbrev calendar : RoomCalendar
calendar = record {
  view = record { year = 1970; month = 0 };
  schedules = meeting ∷ [];
  selected_day = none;
  add_form = some (record { name = "dinner"; date = "1970-01-01"; hour = "18"; minute = "00" });
  edit_form = none;
}

consistent : IsConsistent utc_date calendar
consistent = record { sorted = (tt, tt); selected = λ s e. absurd (ground arith) }

act-IsConsistent_example :
    IsConsistent utc_date
      (act utc_date (add (some (record meeting { id = "dinner"; time = 6_000 }))) calendar)
act-IsConsistent_example =
    act-IsConsistent utc_date (add (some (record meeting { id = "dinner"; time = 6_000 }))) calendar
      consistent

abbrev lunch : RoomSchedule
lunch = record meeting { id = "lunch"; time = 7_500 }

abbrev opened_on : ℕ → SelectedDay
opened_on d = record { day = d; schedules = []; x = 0 }

abbrev busy : RoomCalendar
busy = record calendar { schedules = meeting ∷ lunch ∷ []; selected_day = some (opened_on 7_000) }

abbrev turned : RoomCalendar
turned = record busy { selected_day = some (opened_on 8_000) }

handle_delete_schedule-overlap_example :
    In meeting
      (handle_delete_schedule utc_date busy "lunch" true
        (handle_delete_schedule utc_date busy "meeting" true turned)).schedules
handle_delete_schedule-overlap_example =
    (handle_delete_schedule-overlap utc_date busy turned meeting "lunch" (opened_on 7_000)
      (opened_on 8_000) (inl refl) refl refl refl).0
