-- ===== src/Schedule/Latest.antt =====
-- The latest run of a repeated task: the loop ends, and what it finds is the latest.
use native.Mathlib.Decide.{dec_lt}
use new1v.Prelude.{
  ℕ, zero, suc, ◌+◌, ◌≤◌, ◌<◌, ◌≡◌, refl, true, false, Option, none, some, arith, inl, inr,
  Bool-cases,
}
use new1v.Calendar.{DateTime, IsValid, later, instant, minus_second, second}
use new1v.Calendar.Days.{minus_second-IsValid, instant-minus_second}
use new1v.Schedule.{
  RepeatTask, Result, ok, more_runs, past_end, start_of, latest_loop, latest_repeat_run_at,
  parse_repeat_time,
}
use new1v.Schedule.Repeat.{IsNext, later_test}
use new1v.Schedule.NextRun.{IsRule, Matches, calculate_next_run_at_lem}

module _ (task : RepeatTask) (now : DateTime) (time : ℕ) where
  -- A run of the task: it matches the rule, is later than `from`, and neither later than now nor
  -- past the end.
  pub record IsRun (from : DateTime) (c : DateTime) : Type 0 where
    pub valid : IsValid c
    pub matches : Matches task.rule time c
    pub begun : instant from < instant c
    pub due : instant c ≤ instant now
    pub within : past_end c task.end_at ≡ false

  abbrev pub RunOrNone : DateTime → Option DateTime → Type 0
  RunOrNone from none = Unit
  RunOrNone from (some c) = IsRun from c

-- `d` is not later than the latest run that was found.
abbrev pub UpTo : DateTime → Option DateTime → Type 0
UpTo d none = ⊥
UpTo d (some c) = instant d ≤ instant c

past_end_mono :
    (c d : DateTime) (end_at : Option DateTime)
    → instant c ≤ instant d
    → past_end c end_at ≡ true
    → past_end d end_at ≡ false
    → ⊥
unfolding later
past_end_mono c d none le p q = cc
past_end_mono c d (some e) le p q = ground (arith, p, q)

module _ (task : RepeatTask) (now : DateTime) (time : ℕ) (rule : IsRule task.rule)
    (at_time : parse_repeat_time task.rule.repeat_time ≡ ok time) (from : DateTime) where
  -- What holds of the last run found when the loop stands at `after`.
  record IsSoFar (after : DateTime) (latest : Option DateTime) : Type 0 where
    valid : IsValid after
    begun : instant from ≤ instant after
    due : instant after ≤ instant now
    run : RunOrNone task now time from latest
    covers : (d : DateTime) → IsRun task now time from d → instant d ≤ instant after → UpTo d latest

  -- A run of the task; and if the runs are not limited, none is later.
  pub record IsLatest (latest : Option DateTime) : Type 0 where
    pub run : RunOrNone task now time from latest
    pub last : task.max_runs ≡ none → (d : DateTime) → IsRun task now time from d → UpTo d latest

  abbrev pub Answers : Result (Option DateTime) → Type 0
  Answers r = (latest : Option DateTime) × (r ≡ ok latest) × IsLatest latest

  abbrev NextOf : DateTime → DateTime → Type 0
  NextOf after c = IsNext (Matches task.rule time) after c

  -- The next run is too late, so that there is none after `after`.
  stop_at :
      (after c : DateTime) (latest : Option DateTime)
      → IsSoFar after latest
      → NextOf after c
      → ((d : DateTime) → IsRun task now time from d → instant c ≤ instant d → ⊥)
      → IsLatest latest
  stop_at after c latest so_far next too_late = record {
    run = so_far.run;
    last = λ unlimited d r. elim (dec_lt (instant after) (instant d)) [
      | yes p ↦ absurd (too_late d r (next.first d r.valid r.matches p))
      | no p ↦ so_far.covers d r (omega (arith, p))
    ];
  }

  go_on :
      (after c : DateTime) (latest : Option DateTime)
      → IsSoFar after latest
      → NextOf after c
      → instant c ≤ instant now
      → past_end c task.end_at ≡ false
      → IsSoFar c (some c)
  go_on after c latest so_far next due within = record {
    valid = next.valid;
    begun = omega (arith, so_far.begun, next.after_it);
    due = due;
    run = record {
      valid = next.valid;
      matches = next.matches;
      begun = omega (arith, so_far.begun, next.after_it);
      due = due;
      within = within;
    };
    covers = λ d r le. le;
  }

  latest_loop-Answers :
      (fuel runs : ℕ) (after : DateTime) (latest : Option DateTime)
      → instant now < instant after + fuel
      → IsSoFar after latest
      → Answers (latest_loop fuel task now runs after latest)
  unfolding latest_loop
  latest_loop-Answers zero runs after latest enough so_far =
      absurd (omega (arith, enough, so_far.due))
  latest_loop-Answers (suc fuel) runs after latest enough so_far =
      let (c, found, next) =
        calculate_next_run_at_lem task.rule after time so_far.valid rule at_time in
      elim (Bool-cases (more_runs task.max_runs runs)) [
        | inr e ↦ rw e (
          latest,
          refl,
          record { run = so_far.run; last = λ unlimited. absurd (limited unlimited e) },
        )
        | inl e ↦ elim (later_test c now) [
          | inl (f, gt) ↦
              rw (e, found)
                (rw f (
                  latest,
                  refl,
                  stop_at after c latest so_far next (λ d r le. omega (arith, gt, le, r.due)),
                ))
          | inr (f, le) ↦ elim (Bool-cases (past_end c task.end_at)) [
            | inl g ↦
                rw (e, found)
                  (rw (f, g)
                    (
                      latest,
                      refl,
                      stop_at after c latest so_far next
                          (λ d r le'. past_end_mono c d task.end_at le' g r.within),
                    ))
            | inr g ↦
                rw (e, found)
                  (rw (f, g)
                    (latest_loop-Answers fuel (runs + 1) c (some c)
                      (omega (arith, enough, next.after_it))
                      (go_on after c latest so_far next le g)))
          ]
        ]
      ]
    where
      limited : task.max_runs ≡ none → more_runs task.max_runs runs ≡ false → ⊥
      limited unlimited e = ground (arith, unlimited, e)

-- The task has begun, and its end has not passed.
abbrev pub IsOn : RepeatTask → DateTime → Type 0
IsOn task now = (instant (start_of task) ≤ instant now) × (past_end now task.end_at ≡ false)

-- Runs are sought from a second before the start.
abbrev pub sought_from : RepeatTask → DateTime
sought_from task = minus_second (start_of task)

-- What the search may return.
pub record IsAnswer (task : RepeatTask) (now : DateTime) (time : ℕ) (latest : Option DateTime)
    : Type 0 where
  pub run : RunOrNone task now time (sought_from task) latest
  pub last :
      task.max_runs ≡ none
      → IsOn task now
      → (d : DateTime) → IsRun task now time (sought_from task) d
      → UpTo d latest

-- For a task whose rule is in range, and with fuel for every instant since the start, the search ends
-- with an answer: a run that is due, or none; and if the runs are not limited and the task is on, no
-- due run is later than it.
pub latest_repeat_run_at_lem :
    (task : RepeatTask) (now : DateTime) (time fuel : ℕ)
    → IsRule task.rule
    → parse_repeat_time task.rule.repeat_time ≡ ok time
    → IsValid (start_of task)
    → 1 < (start_of task).year
    → instant now + second < instant (start_of task) + fuel
    → (latest : Option DateTime) × (latest_repeat_run_at fuel task now ≡ ok latest)
      × IsAnswer task now time latest
unfolding latest_repeat_run_at
latest_repeat_run_at_lem task now time fuel rule at_time v y enough =
    elim (later_test (start_of task) now) [
      | inl (e, gt) ↦
          rw e (
            none,
            refl,
            record { run = tt; last = λ unlimited on. absurd (omega (arith, gt, on.0)) },
          )
      | inr (e, le) ↦ elim (Bool-cases (past_end now task.end_at)) [
        | inl f ↦
            rw (e, f) (none, refl, record { run = tt; last = λ unlimited on. absurd (both f on.1) })
        | inr f ↦
            let (latest, found, answer) =
              latest_loop-Answers task now time rule at_time (sought_from task) fuel 0
                (sought_from task) none
                (omega (arith, enough, instant-minus_second (start_of task) v y)) (start le) in
            rw (e, f)
              (
                latest,
                found,
                record { run = answer.run; last = λ unlimited on. answer.last unlimited },
              )
      ]
    ]
  where
    both : past_end now task.end_at ≡ true → past_end now task.end_at ≡ false → ⊥
    both p q = cc

    start :
        instant (start_of task) ≤ instant now
        → IsSoFar task now time rule at_time (sought_from task) (sought_from task) none
    start le = record {
      valid = minus_second-IsValid (start_of task) v y;
      begun = omega arith;
      due = omega (arith, le, instant-minus_second (start_of task) v y);
      run = tt;
      covers = λ d r le'. omega (arith, le', r.begun);
    }
