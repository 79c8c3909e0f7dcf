-- ===== src/Calendar.antt =====
-- Dates and times as Python's `datetime` has them, for the schedules of
-- backend/app/services/system_popup_service.py: the Gregorian calendar, with days counted from the
-- first of January of year 0, and a time of day in microseconds. Years past 9999 are not refused.
pub mod Days
use new1v.Prelude.{
  ℕ, zero, suc, ◌+◌, ◌-◌, ◌*◌, ◌/◌, ◌%◌, ◌≤◌, ◌<◌, Bool, true, false, not, ◌&&◌, ◌||◌, ltb, leb,
  ◌==◌, if◌then◌else◌,
}

pub record DateTime : Type 0 where
  pub year : ℕ
  pub month : ℕ
  pub day : ℕ
  pub time : ℕ

abbrev pub second : ℕ
second = 1000000

abbrev pub day_length : ℕ
day_length = 86400 * 1000000

unfoldable pub is_leap : ℕ → Bool
is_leap y = (y % 4 == 0) && (not (y % 100 == 0) || (y % 400 == 0))

-- `calendar.monthrange(year, month)[1]`
unfoldable pub month_length : ℕ → ℕ → ℕ
unfolding is_leap
month_length y m =
    if m == 2
    then (if is_leap y then 29 else 28)
    else if (m == 4) || ((m == 6) || ((m == 9) || (m == 11)))
    then 30
    else 31

-- Days before the month with this number, counted from January of year 0.
unfoldable pub month_start : ℕ → ℕ
month_start zero = 0
month_start (suc n) = month_start n + month_length (n / 12) (n % 12 + 1)

abbrev pub month_index : ℕ → ℕ → ℕ
month_index y m = y * 12 + (m - 1)

unfoldable pub days : DateTime → ℕ
days t = month_start (month_index t.year t.month) + (t.day - 1)

-- What orders and separates datetimes.
unfoldable pub instant : DateTime → ℕ
instant t = days t * day_length + t.time

-- `a > b` and `a <= b`
unfoldable pub later : DateTime → DateTime → Bool
later a b = ltb (instant b) (instant a)

-- Monday is 0; the first of January of year 1 was one.
unfoldable pub weekday : DateTime → ℕ
weekday t = (days t + 5) % 7

abbrev pub next_month : DateTime → DateTime
next_month t =
    if t.month == 12
    then record t { year = t.year + 1; month = 1; day = 1 }
    else record t { month = t.month + 1; day = 1 }

-- The same time a day later, and `t + timedelta(days=n)`.
unfoldable pub next_day : DateTime → DateTime
next_day t =
    if ltb t.day (month_length t.year t.month) then record t { day = t.day + 1 } else next_month t

unfoldable pub add_days : ℕ → DateTime → DateTime
add_days zero t = t
add_days (suc n) t = add_days n (next_day t)

abbrev last_of_month : ℕ → ℕ → DateTime → DateTime
last_of_month y m t = record t { year = y; month = m; day = month_length y m }

unfoldable pub previous_day : DateTime → DateTime
previous_day t =
    if ltb 1 t.day
    then record t { day = t.day - 1 }
    else if ltb 1 t.month
    then last_of_month t.year (t.month - 1) t
    else last_of_month (t.year - 1) 12 t

-- `t - timedelta(seconds=1)`
unfoldable pub minus_second : DateTime → DateTime
minus_second t =
    if leb second t.time
    then record t { time = t.time - second }
    else record (previous_day t) { time = t.time + day_length - second }

-- A datetime that there is.
pub record IsValid (t : DateTime) : Type 0 where
  pub year_in : 1 ≤ t.year
  pub month_in : (1 ≤ t.month) × (t.month ≤ 12)
  pub day_in : (1 ≤ t.day) × (t.day ≤ month_length t.year t.month)
  pub time_in : t.time < day_length
