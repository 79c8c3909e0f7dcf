-- ===== src/Schedule.antt =====
-- When the tasks of backend/app/services/system_popup_service.py run. The text of a time of day has
-- been read as two integers; what the code refuses is an error here.
pub mod Repeat
pub mod Monthly
pub mod NextRun
pub mod Latest
use new1v.Prelude.{
  ℕ, zero, suc, ◌+◌, ◌-◌, ◌*◌, ◌%◌, Bool, true, false, not, ◌||◌, ◌&&◌, Option, none, some, List,
  [], ◌∷◌, ltb, leb, ◌==◌, if◌then◌else◌,
}
use new1v.Prelude.Int.{ℤ, pos, pos_part, ltb_ℤ}
use new1v.Calendar.{DateTime, second, later, weekday, add_days, minus_second, month_length}

pub data RepeatType : Type 0 where
  daily weekly monthly other : RepeatType

pub record RepeatRule : Type 0 where
  pub repeat_type : RepeatType
  pub repeat_time : Option (ℤ × ℤ)
  pub repeat_weekday : Option ℤ
  pub repeat_month_day : Option ℤ

pub data ScheduleError : Type 0 where
  no_time bad_time bad_weekday bad_month_day no_next bad_type out_of_fuel : ScheduleError
  no_title long_title no_content no_end bad_max_runs no_targets no_filter no_publish_time
        no_launch_id :
      ScheduleError

pub data Result {ℓ} (A : Type ℓ) : Type ℓ where
  ok : A → Result A
  err : ScheduleError → Result A

infixl 5 ◌>>=◌
abbrev pub ◌>>=◌ {ℓ κ} : {A : Type ℓ} {B : Type κ} → Result A → (A → Result B) → Result B
ok a >>= f = f a
err e >>= f = err e

abbrev outside : ℤ → ℕ → ℕ → Bool
outside z lo hi = ltb_ℤ z (pos lo) || ltb_ℤ (pos hi) z

-- The time of day.
unfoldable pub parse_repeat_time : Option (ℤ × ℤ) → Result ℕ
parse_repeat_time none = err no_time
parse_repeat_time (some (hour, minute)) =
    if outside hour 0 23 || outside minute 0 59
    then err bad_time
    else ok ((pos_part hour * 60 + pos_part minute) * (60 * second))

-- `datetime.combine(t.date(), time)`
abbrev pub combine : DateTime → ℕ → DateTime
combine t time = record t { time = time }

unfoldable pub next_daily : ℕ → DateTime → DateTime
next_daily time after =
    let candidate = combine after time in
    if not (later candidate after) then add_days 1 candidate else candidate

unfoldable pub next_weekly : ℕ → ℕ → DateTime → DateTime
next_weekly wanted time after =
    let ahead = (wanted + 7 - weekday after) % 7 in
    let candidate = combine (add_days ahead after) time in
    if not (later candidate after) then add_days 7 candidate else candidate

abbrev pub on_day : (year month day time : ℕ) → DateTime
on_day year month day time = record { year = year; month = month; day = day; time = time }

-- The rounds left, and the year and month of this one.
unfoldable pub find_month : (tries year month day time : ℕ) → DateTime → Result DateTime
find_month zero year month day time after = err no_next
find_month (suc tries) year month day time after =
    let rest =
      find_month tries (if month == 12 then year + 1 else year)
        (if month == 12 then 1 else month + 1) day time after in
    if leb day (month_length year month) && later (on_day year month day time) after
    then ok (on_day year month day time)
    else rest

abbrev weekly_from : Option ℤ → ℕ → DateTime → Result DateTime
weekly_from none time after = err bad_weekday
weekly_from (some wanted) time after =
    if outside wanted 0 6 then err bad_weekday else ok (next_weekly (pos_part wanted) time after)

abbrev monthly_from : Option ℤ → ℕ → DateTime → Result DateTime
monthly_from none time after = err bad_month_day
monthly_from (some day) time after =
    if outside day 1 31
    then err bad_month_day
    else find_month 36 after.year after.month (pos_part day) time after

unfoldable pub next_at : RepeatRule → DateTime → ℕ → Result DateTime
next_at rule after time = elim rule.repeat_type [
  | daily ↦ ok (next_daily time after)
  | weekly ↦ weekly_from rule.repeat_weekday time after
  | monthly ↦ monthly_from rule.repeat_month_day time after
  | other ↦ err bad_type
]

unfoldable pub calculate_next_run_at : RepeatRule → DateTime → Result DateTime
calculate_next_run_at rule after = do
  time ← parse_repeat_time rule.repeat_time
  next_at rule after time

-- The columns of a task that its repetition reads.
pub record RepeatTask : Type 0 where
  pub rule : RepeatRule
  pub start_at : Option DateTime
  pub created_at : DateTime
  pub end_at : Option DateTime
  pub max_runs : Option ℤ

abbrev pub start_of : RepeatTask → DateTime
start_of task = elim task.start_at [ none ↦ task.created_at | some start ↦ start ]

-- `max_runs is None or runs < max_runs`
abbrev pub more_runs : Option ℤ → ℕ → Bool
more_runs none runs = true
more_runs (some limit) runs = ltb_ℤ (pos runs) limit

-- `end_at is not None and t > end_at`
abbrev pub past_end : DateTime → Option DateTime → Bool
past_end t none = false
past_end t (some end_at) = later t end_at

-- The loop, with fuel: the runs so far, the time after which the next is sought, and the latest run.
unfoldable pub latest_loop :
    (fuel : ℕ)
    → RepeatTask
    → (now : DateTime) → (runs : ℕ) → (after : DateTime) → Option DateTime
    → Result (Option DateTime)
latest_loop zero task now runs after latest = err out_of_fuel
latest_loop (suc fuel) task now runs after latest =
    let rest =
      λ (candidate : DateTime). latest_loop fuel task now (runs + 1) candidate (some candidate) in
    let step = λ (candidate : DateTime).
      if later candidate now
      then ok latest
      else if past_end candidate task.end_at
      then ok latest
      else rest candidate in
    if more_runs task.max_runs runs
    then (calculate_next_run_at task.rule after >>= step)
    else ok latest

unfoldable pub latest_repeat_run_at : (fuel : ℕ) → RepeatTask → DateTime → Result (Option DateTime)
latest_repeat_run_at fuel task now =
    if later (start_of task) now
    then ok none
    else if past_end now task.end_at
    then ok none
    else latest_loop fuel task now 0 (minus_second (start_of task)) none
