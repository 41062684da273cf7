-- ===== src/Calendar.antt =====
-- frontend/components/ScheduleCalendar.tsx and RoomScheduleCalendar.tsx: the grid of a month, the
-- months before and after, and the schedules of a day. Months count from 0, as those of `Date` do.
pub mod Grid
pub mod Days
pub mod Room
use Prim.Native.Nat.{◌/◌, ◌%◌, ◌*◌, ◌-◌}
use talkertive_chat_app.Base.{
  ℕ, zero, suc, ◌+◌, String, Bool, true, false, ◌&&◌, ◌||◌, not, Option, none, some, List, [], ◌∷◌,
  ◌++◌, map, filter, length, ◌==◌, string_eq, nat_eq, leb, ltb, if◌then◌else◌,
}
use talkertive_chat_app.Base.Text.{utf16_length}
use talkertive_chat_app.Media.{◌+++◌}
use talkertive_chat_app.Rooms.Keys.{decimal}

-- A month in view.
pub record View : Type 0 where
  pub year : ℕ
  pub month : ℕ

abbrev pub is_leap : ℕ → Bool
is_leap y = y % 4 == 0 && (not (y % 100 == 0) || y % 400 == 0)

-- The days of a month of the Gregorian calendar.
abbrev pub month_length : ℕ → ℕ → ℕ
month_length y m =
    if m == 1
    then (if is_leap y then 29 else 28)
    else if m == 3 || m == 5 || m == 8 || m == 10
    then 30
    else 31

-- The days from the first of January of year 0 to the first of a month.
abbrev pub days_before_year : ℕ → ℕ
days_before_year y = 365 * y + (y + 3) / 4 + (y + 399) / 400 - (y + 99) / 100

abbrev pub days_before_month : ℕ → ℕ → ℕ
days_before_month y zero = days_before_year y
days_before_month y (suc m) = days_before_month y m + month_length y m

-- The weekday of a date, 0 for Sunday; the first of January of year 0 was a Saturday.
abbrev pub weekday : ℕ → ℕ → ℕ → ℕ
weekday y m d = (days_before_month y m + (d - 1) + 6) % 7

-- `new Date(year, …)` takes the years up to 99 for those from 1900.
abbrev pub full_year : ℕ → ℕ
full_year y = if leb y 99 then 1900 + y else y

-- `new Date(year, month, 1).getDay()` and `new Date(year, month + 1, 0).getDate()`
unfoldable pub first_day : View → ℕ
first_day v = weekday (full_year v.year) v.month 1

unfoldable pub days_in_month : View → ℕ
days_in_month v = month_length (full_year v.year) v.month

-- `Array(n).fill(null)`, and `Array.from({ length: n }, (_, i) => i + 1)` from a first number on
abbrev pub blanks : ℕ → List (Option ℕ)
blanks zero = []
blanks (suc n) = none ∷ blanks n

abbrev pub days_from : ℕ → ℕ → List (Option ℕ)
days_from d zero = []
days_from d (suc n) = some d ∷ days_from (d + 1) n

-- `while (cells.length % 7 !== 0) cells.push(null)`, none where the fuel does not reach the end
unfoldable pub fill_weeks : ℕ → List (Option ℕ) → Option (List (Option ℕ))
fill_weeks zero cells = if length cells % 7 == 0 then some cells else none
fill_weeks (suc n) cells =
    let rest = fill_weeks n (cells ++ none ∷ []) in
    if length cells % 7 == 0 then some cells else rest

unfoldable pub cells : ℕ → View → Option (List (Option ℕ))
unfolding fill_weeks first_day days_in_month
cells fuel v = fill_weeks fuel (blanks (first_day v) ++ days_from 1 (days_in_month v))

unfoldable pub prev_month : View → View
prev_month v =
    if v.month == 0
    then record { year = v.year - 1; month = 11 }
    else record v { month = v.month - 1 }

unfoldable pub next_month : View → View
next_month v =
    if v.month == 11
    then record { year = v.year + 1; month = 0 }
    else record v { month = v.month + 1 }

-- `String(n).padStart(2, '0')`
unfoldable pub two_digits : ℕ → String
unfolding decimal
two_digits n = if ltb (utf16_length (decimal n)) 2 then "0" +++ decimal n else decimal n

-- A day of a month, counted from 0, of a year.
pub record Date : Type 0 where
  pub year : ℕ
  pub month : ℕ
  pub day : ℕ

-- `toDateKey`, and the key of a cell
unfoldable pub to_date_key : Date → String
unfolding decimal two_digits
to_date_key d = decimal d.year +++ "-" +++ two_digits (d.month + 1) +++ "-" +++ two_digits d.day

unfoldable pub cell_key : View → ℕ → String
unfolding to_date_key
cell_key v d = to_date_key (record { year = v.year; month = v.month; day = d })

-- `scheduleMap`: the keys in the order in which they come up, each with its schedules. A schedule
-- has a time, and `local_date` is the date of a time where the client is.
module _ {S : Type 0} (time : S → ℕ) (local_date : ℕ → Date) where
  unfoldable pub key_of : S → String
  unfolding to_date_key
  key_of s = to_date_key (local_date (time s))

  abbrev pub push : String → S → List (String × List S) → List (String × List S)
  push k s [] = (k, s ∷ []) ∷ []
  push k s ((j, xs) ∷ m) = if j == k then (j, xs ++ s ∷ []) ∷ m else (j, xs) ∷ push k s m

  unfoldable pub schedule_map : List S → List (String × List S) → List (String × List S)
  unfolding key_of
  schedule_map [] m = m
  schedule_map (s ∷ ss) m = schedule_map ss (push (key_of s) s m)

  -- `scheduleMap[key] ?? []`
  abbrev pub schedules_at : String → List (String × List S) → List S
  schedules_at k [] = []
  schedules_at k ((j, xs) ∷ m) = if j == k then xs else schedules_at k m

  -- `updated.filter((s) => toDateKey(new Date(s.time)) === key)`
  unfoldable pub schedules_of_day : String → List S → List S
  unfolding key_of
  schedules_of_day k ss = filter (λ s. key_of s == k) ss
