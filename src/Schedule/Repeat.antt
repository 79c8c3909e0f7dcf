-- ===== src/Schedule/Repeat.antt =====
-- The daily and the weekly rule: the next run is the first matching time after a given one.
use new1v.Prelude.{
  ℕ, ◌+◌, ◌-◌, ◌%◌, ◌≤◌, ◌<◌, ◌≡◌, ◌⊎◌, refl, true, false, arith, inl, inr, Bool-cases, ltb, ◌∙◌,
}
use new1v.Calendar.{DateTime, IsValid, day_length, later, days, instant, weekday, add_days}
use new1v.Calendar.Days.{add_days-IsValid, days-add_days, time-add_days}
use new1v.Schedule.{combine, next_daily, next_weekly}

-- `c` is the first instant after `after` that `P` holds of.
pub record IsNext (P : DateTime → Type 0) (after : DateTime) (c : DateTime) : Type 0 where
  pub valid : IsValid c
  pub matches : P c
  pub after_it : instant after < instant c
  pub first : (d : DateTime) → IsValid d → P d → instant after < instant d → instant c ≤ instant d

abbrev pub Daily : ℕ → DateTime → Type 0
Daily time d = d.time ≡ time

abbrev pub Weekly : ℕ → ℕ → DateTime → Type 0
Weekly wanted time d = (weekday d ≡ wanted) × (d.time ≡ time)

days-combine : (t : DateTime) (time : ℕ) → days (combine t time) ≡ days t
unfolding days
days-combine t time = refl

combine-IsValid :
    (t : DateTime) (time : ℕ) → IsValid t → time < day_length → IsValid (combine t time)
combine-IsValid t time v h = record {
  year_in = v.year_in;
  month_in = v.month_in;
  day_in = v.day_in;
  time_in = h;
}

pub later_test :
    (a b : DateTime)
    → ((later a b ≡ true) × (instant b < instant a))
      ⊎ ((later a b ≡ false) × (instant a ≤ instant b))
unfolding later
later_test a b = elim (Bool-cases (ltb (instant b) (instant a))) [
  | inl e ↦ inl (e, ground (arith, e))
  | inr e ↦ inr (e, ground (arith, e))
]

module _ (time : ℕ) (after : DateTime) (v : IsValid after) (h : time < day_length) where
  pub next_daily-IsNext : IsNext (Daily time) after (next_daily time after)
  unfolding next_daily instant
  next_daily-IsNext =
      let c = combine after time in
      let vc = combine-IsValid after time v h in
      let same = days-combine after time in
      elim (later_test c after) [
        | inl (e, lt) ↦ rw e (record {
          valid = vc;
          matches = refl;
          after_it = lt;
          first = λ d vd m a. omega (arith, same, v.time_in, m);
        })
        | inr (e, ge) ↦ rw e (record {
          valid = add_days-IsValid 1 c vc;
          matches = time-add_days 1 c;
          after_it = omega (arith, same, days-add_days 1 c vc, time-add_days 1 c, v.time_in);
          first = λ d vd m a.
              omega (arith, same, days-add_days 1 c vc, time-add_days 1 c, v.time_in, m);
        })
      ]

  -- The days ahead lead to the wanted day of the week, and to the first such day.
  ahead_weekday :
      (wanted : ℕ)
      → wanted < 7
      → let c = combine (add_days ((wanted + 7 - weekday after) % 7) after) time in
        (weekday c ≡ wanted) × (days c ≡ days after + (wanted + 7 - weekday after) % 7)
  unfolding weekday
  ahead_weekday wanted w =
      let ahead = (wanted + 7 - weekday after) % 7 in
      let on = days-combine (add_days ahead after) time ∙ days-add_days ahead after v in
      omega (arith, on)

  pub next_weekly-IsNext :
      (wanted : ℕ) → wanted < 7 → IsNext (Weekly wanted time) after (next_weekly wanted time after)
  unfolding next_weekly instant weekday
  next_weekly-IsNext wanted w =
      let ahead = (wanted + 7 - weekday after) % 7 in
      let c = combine (add_days ahead after) time in
      let vc = combine-IsValid (add_days ahead after) time (add_days-IsValid ahead after v) h in
      let on = ahead_weekday wanted w in
      let week = days-add_days 7 c vc in
      let same_time = time-add_days 7 c in
      elim (later_test c after) [
        | inl (e, lt) ↦ rw e (record {
          valid = vc;
          matches = (on.0, refl);
          after_it = lt;
          first = λ d vd m a. omega (arith, on, v.time_in, m, vd.time_in);
        })
        | inr (e, ge) ↦ rw e (record {
          valid = add_days-IsValid 7 c vc;
          matches = (omega (arith, on, week), same_time);
          after_it = omega (arith, on, week, same_time, v.time_in);
          first = λ d vd m a. omega (arith, on, week, same_time, v.time_in, m, vd.time_in, ge);
        })
      ]
