-- ===== src/Calendar/Grid.antt =====
-- The grid of a month, and how the months follow one another.
use Prim.Native.Nat.{◌%◌, ◌-◌}
use talkertive_chat_app.Base.{
  append_assoc, ℕ, zero, suc, ◌+◌, ◌≤◌, false, ◌≡◌, refl, ap, ◌∙◌, Option, none, some, List, [],
  ◌∷◌, ◌++◌, length, ◌==◌, nat_eq, arith,
}
use talkertive_chat_app.Calendar.{
  View, weekday, full_year, first_day, days_in_month, blanks, days_from, fill_weeks, cells,
  prev_month, next_month,
}

length-append : (xs ys : List (Option ℕ)) → length (xs ++ ys) ≡ length xs + length ys
length-append [] ys = ground arith
length-append (x ∷ xs) ys = ground (arith, length-append xs ys)

append-nil : (xs : List (Option ℕ)) → xs ++ [] ≡ xs
append-nil [] = refl
append-nil (x ∷ xs) = ap (λ t. x ∷ t) (append-nil xs)

length-blanks : (n : ℕ) → length (blanks n) ≡ n
length-blanks zero = refl
length-blanks (suc n) = ground (arith, length-blanks n)

length-days_from : (d n : ℕ) → length (days_from d n) ≡ n
length-days_from d zero = refl
length-days_from d (suc n) = ground (arith, length-days_from (d + 1) n)

-- The loop ends within six rounds: with more fuel than cells are missing to a week, it fills up the
-- last week and no more.
fill_weeks-blanks :
    (k fuel : ℕ) (cs : List (Option ℕ))
    → k ≤ 6
    → k ≤ fuel
    → (length cs + k) % 7 ≡ 0
    → fill_weeks fuel cs ≡ some (cs ++ blanks k)
unfolding fill_weeks
fill_weeks-blanks zero zero cs small enough full = ground (arith, append-nil cs)
fill_weeks-blanks zero (suc f) cs small enough full = ground (arith, append-nil cs)
fill_weeks-blanks (suc k) zero cs small enough full = absurd (omega arith)
fill_weeks-blanks (suc k) (suc f) cs small enough full =
    let longer = length-append cs (none ∷ []) in
    let open_week : (length cs % 7 == 0) ≡ false = ground arith in
    let rest =
      fill_weeks-blanks k f (cs ++ none ∷ []) (omega arith) (omega arith) (omega (arith, longer)) in
    ground (arith, rest, append_assoc cs (none ∷ []) (blanks k))

-- The cells that are missing to a week.
abbrev missing : ℕ → ℕ
missing n = (7 - n % 7) % 7

missing_lem : (n : ℕ) → (missing n ≤ 6) × ((n + missing n) % 7 ≡ 0)
missing_lem n = (omega arith, omega arith)

days_in_month_bounds : (v : View) → (28 ≤ days_in_month v) × (days_in_month v ≤ 31)
unfolding days_in_month
days_in_month_bounds v = (ground arith, ground arith)

-- The grid of a month is made in at most six rounds of its loop, and is the blanks before the
-- first, the days of the month in their order and blanks up to the end of the last week, less than
-- a week of either. It is made of whole weeks, from four up to six of them, and a day stands in
-- the column of its weekday.
pub cells-weeks :
    (fuel : ℕ) (v : View)
    → 6 ≤ fuel
    → let b = first_day v in
      let n = days_in_month v in
      (k : ℕ) × (cells fuel v ≡ some (blanks b ++ (days_from 1 n ++ blanks k)))
      × (b ≤ 6)
      × (k ≤ 6)
      × ((b + n + k) % 7 ≡ 0)
      × (28 ≤ b + n + k)
      × (b + n + k ≤ 42)
      × ((d : ℕ) → 1 ≤ d → d ≤ n → (b + (d - 1)) % 7 ≡ weekday (full_year v.year) v.month d)
unfolding cells first_day
cells-weeks fuel v enough =
    let b = first_day v in
    let n = days_in_month v in
    let start = blanks b ++ days_from 1 n in
    let size : length start ≡ b + n =
      ground
        (arith, length-append (blanks b) (days_from 1 n), length-blanks b, length-days_from 1 n) in
    let (small, full) = missing_lem (length start) in
    let (long, short) = days_in_month_bounds v in
    (
      missing (length start),
      fill_weeks-blanks (missing (length start)) fuel start small (omega arith) full
          ∙ ap some (append_assoc (blanks b) (days_from 1 n) (blanks (missing (length start)))),
      omega arith,
      small,
      rw (← size) full,
      omega arith,
      omega arith,
      λ d low high. omega arith,
    )

-- Going a month on and then back, or back and then on, leads to the same month, and what is
-- reached is a month of the year, where the year is not the first.
next_month-prev_month :
    (v : View)
    → v.month ≤ 11
    → 1 ≤ v.year
    → (next_month (prev_month v) ≡ v)
      × (prev_month (next_month v) ≡ v)
      × ((next_month v).month ≤ 11)
      × ((prev_month v).month ≤ 11)
unfolding next_month prev_month
next_month-prev_month v low year = (ground arith, ground arith, ground arith, ground arith)
