-- ===== src/Admin/Statistics.antt =====
-- backend/src/admin/admin.service.ts: the counts by day of `getUserStats`, `getRoomStats` and
-- `getScheduleStats`. The server's zone is `offset` milliseconds ahead of UTC, the whole year; a
-- zone behind UTC is the rest of a day ahead. The text of a day, `toISOString().split('T')[0]`,
-- stands for the number of its day of UTC.
use Prim.Native.Nat.{◌/◌, ◌%◌, ◌*◌, ◌-◌}
use talkertive_chat_app.Base.{
  ℕ, zero, suc, ◌+◌, ◌≤◌, Bool, ◌&&◌, ◌≡◌, refl, sym, ap, ◌∙◌, List, [], ◌∷◌, filter, length, All,
  leb, ltb, ◌==◌, nat_eq, bit, if◌then◌else◌, arith,
}

-- `toISOString().split('T')[0]`
abbrev pub utc_day : ℕ → ℕ
utc_day t = t / 86_400_000

-- `setHours(0, 0, 0, 0)`
abbrev pub local_midnight : ℕ → ℕ → ℕ
local_midnight offset t = t - (t + offset) % 86_400_000

-- `dailyMap[date] = (dailyMap[date] || 0) + 1`, and `dailyMap[date] || 0`
abbrev pub bump : ℕ → List (ℕ × ℕ) → List (ℕ × ℕ)
bump d [] = (d, 1) ∷ []
bump d ((e, n) ∷ m) = if e == d then (e, n + 1) ∷ m else (e, n) ∷ bump d m

abbrev pub daily_map : List ℕ → List (ℕ × ℕ) → List (ℕ × ℕ)
daily_map [] m = m
daily_map (t ∷ ts) m = daily_map ts (bump (utc_day t) m)

abbrev pub count_at : ℕ → List (ℕ × ℕ) → ℕ
count_at d [] = 0
count_at d ((e, n) ∷ m) = if e == d then n else count_at d m

-- `Array.from({ length: n }, …)`: the days from a time on.
abbrev pub days_series : List (ℕ × ℕ) → ℕ → ℕ → List (ℕ × ℕ)
days_series m start zero = []
days_series m start (suc n) =
    (utc_day start, count_at (utc_day start) m) ∷ days_series m (start + 86_400_000) n

abbrev pub thirty_days_ago : ℕ → ℕ → ℕ
thirty_days_ago offset now = local_midnight offset (now - 29 * 86_400_000)

-- `recentUsers` and `recentRooms` by their `createdAt`, and `last30Days`
unfoldable pub recent : ℕ → ℕ → List ℕ → List ℕ
recent offset now times = filter (λ t. leb (thirty_days_ago offset now) t) times

unfoldable pub last_30_days : ℕ → ℕ → List ℕ → List (ℕ × ℕ)
unfolding recent
last_30_days offset now times =
    days_series (daily_map (recent offset now times) []) (thirty_days_ago offset now) 30

-- `upcomingSchedules` by their `time`, and `next90Days`
unfoldable pub upcoming : ℕ → ℕ → List ℕ → List ℕ
upcoming offset now times =
    let today = local_midnight offset now in
    filter (λ t. leb today t && leb t (today + 89 * 86_400_000 + 86_399_999)) times

unfoldable pub next_90_days : ℕ → ℕ → List ℕ → List (ℕ × ℕ)
unfolding upcoming
next_90_days offset now times =
    days_series (daily_map (upcoming offset now times) []) (local_midnight offset now) 90

abbrev pub total : List (ℕ × ℕ) → ℕ
total [] = 0
total ((d, n) ∷ s) = n + total s

count_at-bump : (d e : ℕ) (m : List (ℕ × ℕ)) → count_at d (bump e m) ≡ count_at d m + bit (e == d)
count_at-bump d e [] = ground arith
count_at-bump d e ((f, n) ∷ m) = ground (arith, count_at-bump d e m)

count_at-daily_map :
    (d : ℕ) (ts : List ℕ) (m : List (ℕ × ℕ))
    → count_at d (daily_map ts m) ≡ count_at d m + length (filter (λ t. utc_day t == d) ts)
count_at-daily_map d [] m = ground arith
count_at-daily_map d (t ∷ ts) m =
    count_at-daily_map d ts (bump (utc_day t) m) ∙ ground (arith, count_at-bump d (utc_day t) m)

-- The times on `n` days of UTC from one on.
abbrev within : ℕ → ℕ → ℕ → Bool
within d n t = leb d (utc_day t) && ltb (utc_day t) (d + n)

within-suc :
    (d n : ℕ) (ts : List ℕ)
    → length (filter (within d (suc n)) ts)
      ≡ length (filter (λ t. utc_day t == d) ts) + length (filter (within (d + 1) n) ts)
within-suc d n [] = ground arith
within-suc d n (t ∷ ts) = ground (arith, within-suc d n ts)

within-zero : (d : ℕ) (ts : List ℕ) → length (filter (within d 0) ts) ≡ 0
within-zero d [] = refl
within-zero d (t ∷ ts) = ground (arith, within-zero d ts)

utc_day-next : (start : ℕ) → utc_day (start + 86_400_000) ≡ utc_day start + 1
utc_day-next start = omega arith

total-days_series :
    (ts : List ℕ) (start n : ℕ)
    → total (days_series (daily_map ts []) start n) ≡ length (filter (within (utc_day start) n) ts)
total-days_series ts start zero = sym (within-zero (utc_day start) ts)
total-days_series ts start (suc n) = ground (
  arith,
  total-days_series ts (start + 86_400_000) n,
  utc_day-next start,
  within-suc (utc_day start) n ts,
  count_at-daily_map (utc_day start) ts [],
)

-- Of the times of a list from a day on, those within `n` days and those behind them.
filter-later :
    (d n m : ℕ) (ts : List ℕ)
    → m + 1 ≡ d + n
    → All (λ t. d ≤ utc_day t) ts
    → length (filter (within d n) ts) + length (filter (λ t. ltb m (utc_day t)) ts) ≡ length ts
filter-later d n m [] last h = ground arith
filter-later d n m (t ∷ ts) last (e, h) = ground (arith, filter-later d n m ts last h)

utc_day_mono : (s t : ℕ) → s ≤ t → utc_day s ≤ utc_day t
utc_day_mono s t h = omega arith

All-recent :
    (offset now : ℕ) (ts : List ℕ)
    → All (λ t. utc_day (thirty_days_ago offset now) ≤ utc_day t) (recent offset now ts)
unfolding recent
All-recent offset now [] = tt
All-recent offset now (t ∷ ts) =
    ground (arith, All-recent offset now ts, utc_day_mono (thirty_days_ago offset now) t)

last_midnight :
    (offset now : ℕ)
    → 30 * 86_400_000 ≤ now
    → utc_day (local_midnight offset now) + 1 ≡ utc_day (thirty_days_ago offset now) + 30
last_midnight offset now late = omega arith

All-upcoming :
    (offset now : ℕ) (ts : List ℕ)
    → All (λ t. utc_day (local_midnight offset now) ≤ utc_day t) (upcoming offset now ts)
unfolding upcoming
All-upcoming offset now [] = tt
All-upcoming offset now (t ∷ ts) =
    ground (arith, All-upcoming offset now ts, utc_day_mono (local_midnight offset now) t)

total-last_30_days :
    (offset now : ℕ) (times : List ℕ)
    → 30 * 86_400_000 ≤ now
    → total (last_30_days offset now times)
        + length (
            filter
              (λ t. ltb (utc_day (local_midnight offset now)) (utc_day t))
              (recent offset now times))
      ≡ length (recent offset now times)
unfolding last_30_days
total-last_30_days offset now times late =
    let start = thirty_days_ago offset now in
    let rs = recent offset now times in
    let later = length (filter (λ t. ltb (utc_day (local_midnight offset now)) (utc_day t)) rs) in
    ap (λ n. n + later) (total-days_series rs start 30)
    ∙ filter-later (utc_day start) 30 (utc_day (local_midnight offset now)) rs
        (last_midnight offset now late) (All-recent offset now times)

total-next_90_days :
    (offset now : ℕ) (times : List ℕ)
    → let today = utc_day (local_midnight offset now) in
      total (next_90_days offset now times)
        + length (filter (λ t. ltb (today + 89) (utc_day t)) (upcoming offset now times))
      ≡ length (upcoming offset now times)
unfolding next_90_days
total-next_90_days offset now times =
    let start = local_midnight offset now in
    let ts = upcoming offset now times in
    let later = length (filter (λ t. ltb (utc_day start + 89) (utc_day t)) ts) in
    ap (λ n. n + later) (total-days_series ts start 90)
    ∙ filter-later (utc_day start) 90 (utc_day start + 89) ts (omega arith)
        (All-upcoming offset now times)

-- The thirty counts and the number of those who come on a later day of UTC than that of the
-- server's last midnight make up all that the service has read, and so do the ninety counts and the
-- number of the schedules on a later day of UTC than that of the ninetieth midnight: whatever comes
-- on such a day is in no count.
pub daily_counts-total :
    (offset now : ℕ) (times : List ℕ)
    → 30 * 86_400_000 ≤ now
    → let today = utc_day (local_midnight offset now) in
      (total (last_30_days offset now times)
          + length (filter (λ t. ltb today (utc_day t)) (recent offset now times))
        ≡ length (recent offset now times))
      × (total (next_90_days offset now times)
            + length (filter (λ t. ltb (today + 89) (utc_day t)) (upcoming offset now times))
          ≡ length (upcoming offset now times))
daily_counts-total offset now times late =
    (total-last_30_days offset now times late, total-next_90_days offset now times)
