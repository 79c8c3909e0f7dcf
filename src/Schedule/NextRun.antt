-- ===== src/Schedule/NextRun.antt =====
-- The next run of a rule: every rule that the forms let through has one.
use new1v.Prelude.{ℕ, ◌≤◌, ◌<◌, ◌≡◌, refl, Option, none, some, arith}
use new1v.Prelude.Int.{ℤ, pos, negsuc}
use new1v.Calendar.{DateTime, IsValid, day_length}
use new1v.Schedule.{
  RepeatRule, RepeatType, daily, weekly, monthly, other, Result, ok, parse_repeat_time, next_daily,
  next_weekly, next_at, calculate_next_run_at,
}
use new1v.Schedule.Repeat.{IsNext, Daily, Weekly, next_daily-IsNext, next_weekly-IsNext}
use new1v.Schedule.Monthly.{Monthly, next_monthly_lem}

-- The times that a rule means, at a time of day.
abbrev MatchesOf : RepeatType → (weekday month_day : Option ℤ) → ℕ → DateTime → Type 0
MatchesOf daily weekday month_day time d = Daily time d
MatchesOf weekly (some (pos wanted)) month_day time d = Weekly wanted time d
MatchesOf monthly weekday (some (pos day)) time d = Monthly day time d
MatchesOf _ _ _ time d = ⊥

abbrev pub Matches : RepeatRule → ℕ → DateTime → Type 0
Matches rule time d = MatchesOf rule.repeat_type rule.repeat_weekday rule.repeat_month_day time d

-- A day of the week from 0 to 6 for a weekly rule, a day from 1 to 31 for a monthly one.
abbrev InRange : RepeatType → (weekday month_day : Option ℤ) → Type 0
InRange daily weekday month_day = Unit
InRange weekly (some (pos wanted)) month_day = wanted < 7
InRange monthly weekday (some (pos day)) = (1 ≤ day) × (day ≤ 31)
InRange _ _ _ = ⊥

abbrev pub IsRule : RepeatRule → Type 0
IsRule rule = InRange rule.repeat_type rule.repeat_weekday rule.repeat_month_day

pub time-lt-day_length :
    (text : Option (ℤ × ℤ)) (time : ℕ) → parse_repeat_time text ≡ ok time → time < day_length
unfolding parse_repeat_time
time-lt-day_length none time h = cc
time-lt-day_length (some (pos hour, pos minute)) time h = ground (arith, h)
time-lt-day_length (some (negsuc hour, minute)) time h = ground (arith, h)
time-lt-day_length (some (pos hour, negsuc minute)) time h = ground (arith, h)

module _ (after : DateTime) (v : IsValid after) (time : ℕ) (t : time < day_length) where
  abbrev Next : RepeatType → (weekday month_day : Option ℤ) → Result DateTime → Type 0
  Next type weekday month_day r =
      (c : DateTime) × (r ≡ ok c) × IsNext (MatchesOf type weekday month_day time) after c

  next_at-IsNext :
      (type : RepeatType) (text : Option (ℤ × ℤ)) (weekday month_day : Option ℤ)
      → InRange type weekday month_day
      → Next type weekday month_day (
          next_at
            (record {
              repeat_type = type;
              repeat_time = text;
              repeat_weekday = weekday;
              repeat_month_day = month_day;
            })
            after
            time)
  unfolding next_at
  next_at-IsNext daily text weekday month_day i =
      (next_daily time after, refl, next_daily-IsNext time after v t)
  next_at-IsNext weekly text (some (pos wanted)) month_day i =
      (next_weekly wanted time after, ground (arith, i), next_weekly-IsNext time after v t wanted i)
  next_at-IsNext monthly text weekday (some (pos day)) i =
      let (c, found, next) = next_monthly_lem day time after v i.0 t 33 i.1 in
      (c, ground (arith, i, found), next)
  next_at-IsNext weekly text none month_day i = elim i [ ]
  next_at-IsNext weekly text (some (negsuc n)) month_day i = elim i [ ]
  next_at-IsNext monthly text weekday none i = elim i [ ]
  next_at-IsNext monthly text weekday (some (negsuc n)) i = elim i [ ]
  next_at-IsNext other text weekday month_day i = elim i [ ]

-- After any datetime, a rule with a time of day and its day in range has a next run, whatever the
-- kind of rule: the earliest matching datetime that is later. The search over months never gives up.
pub calculate_next_run_at_lem :
    (rule : RepeatRule) (after : DateTime) (time : ℕ)
    → IsValid after
    → IsRule rule
    → parse_repeat_time rule.repeat_time ≡ ok time
    → (c : DateTime) × (calculate_next_run_at rule after ≡ ok c)
      × IsNext (Matches rule time) after c
unfolding calculate_next_run_at
calculate_next_run_at_lem rule after time v i e =
    let (c, found, next) =
      next_at-IsNext after v time (time-lt-day_length rule.repeat_time time e) rule.repeat_type
        rule.repeat_time rule.repeat_weekday rule.repeat_month_day i in
    (c, rw e found, next)
