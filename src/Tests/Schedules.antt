-- ===== src/Tests/Schedules.antt =====
-- The theorems on schedules, applied to the 31st of each month at 9:30, from January of year 2 on.
use new1v.Prelude.{◌+◌, ◌<◌, ◌≡◌, refl, none, some, arith, Option}
use new1v.Prelude.Int.{pos}
use new1v.Calendar.{
  DateTime, IsValid, second, instant, days, month_start, month_length, later, weekday,
}
use new1v.Schedule.{
  RepeatRule, RepeatTask, monthly, ok, parse_repeat_time, calculate_next_run_at,
  latest_repeat_run_at, next_at, find_month,
}
use new1v.Schedule.Repeat.{IsNext}
use new1v.Schedule.NextRun.{Matches, calculate_next_run_at_lem}
use new1v.Schedule.Latest.{IsAnswer, latest_repeat_run_at_lem}

abbrev start : DateTime
start = record { year = 2; month = 1; day = 31; time = 40000000000 }

abbrev rule : RepeatRule
rule = record {
  repeat_type = monthly;
  repeat_time = some (pos 9, pos 30);
  repeat_weekday = none;
  repeat_month_day = some (pos 31);
}

abbrev now : DateTime
now = record { year = 2; month = 6; day = 2; time = 0 }

abbrev task : RepeatTask
task = record {
  rule = rule;
  start_at = some start;
  created_at = start;
  end_at = none;
  max_runs = none;
}

-- February has no 31st, and the time of the 31st of January has passed.
skips_february :
    calculate_next_run_at rule start
    ≡ ok (record { year = 2; month = 3; day = 31; time = 34200000000 })
unfolding calculate_next_run_at parse_repeat_time next_at find_month later instant days month_start
    month_length
skips_february = refl

-- The 31st of January of year 2 was a Thursday.
weekday-start : weekday start ≡ 3
unfolding weekday days month_start month_length
weekday-start = refl

start-IsValid : IsValid start
unfolding month_length
start-IsValid = ground arith

half_past : parse_repeat_time rule.repeat_time ≡ ok 34200000000
unfolding parse_repeat_time
half_past = refl

calculate_next_run_at_lem_example :
    (c : DateTime) × (calculate_next_run_at rule start ≡ ok c)
    × IsNext (Matches rule 34200000000) start c
calculate_next_run_at_lem_example =
    calculate_next_run_at_lem rule start 34200000000 start-IsValid (ground arith) half_past

enough_fuel : instant now + second < instant start + 100000000000000
unfolding instant days month_start month_length
enough_fuel = omega arith

latest_repeat_run_at_lem_example :
    (latest : Option DateTime) × (latest_repeat_run_at 100000000000000 task now ≡ ok latest)
    × IsAnswer task now 34200000000 latest
latest_repeat_run_at_lem_example =
    latest_repeat_run_at_lem task now 34200000000 100000000000000 (ground arith) half_past
      start-IsValid (omega arith) enough_fuel
