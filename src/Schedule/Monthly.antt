-- ===== src/Schedule/Monthly.antt =====
-- The monthly rule: the loop over the months finds the first matching day, within three months.
use native.Mathlib.Decide.{dec_lt}
use new1v.Prelude.{
  ℕ, zero, suc, ◌+◌, ◌≤◌, ◌<◌, ◌≡◌, refl, Bool, true, false, ◌&&◌, arith, inl, inr, Bool-cases, leb,
  ◌==◌, if◌then◌else◌, ap, subst, sym, ◌∙◌,
}
use new1v.Calendar.{
  DateTime, IsValid, day_length, later, days, instant, month_length, month_index, month_start,
}
use new1v.Calendar.Days.{days_mono, instant-lt-of_days}
use new1v.Schedule.{ok, on_day, find_month}
use new1v.Schedule.Repeat.{IsNext, later_test}

abbrev pub Monthly : (day time : ℕ) → DateTime → Type 0
Monthly day time d = (d.day ≡ day) × (d.time ≡ time)

-- No two months that follow one another are both shorter than 31 days.
long_month :
    (y y' m m' : ℕ)
    → 1 ≤ m
    → m ≤ 12
    → m' ≡ (if m == 12 then 1 else m + 1)
    → month_length y m < 31
    → 31 ≤ month_length y' m'
unfolding month_length
long_month y y' m m' h k e short = ground arith

abbrev index_of : DateTime → ℕ
index_of d = month_index d.year d.month

-- Two days of one month are told apart by day and time.
same_month :
    (d e : DateTime)
    → IsValid d
    → IsValid e
    → index_of d ≡ index_of e
    → d.day ≡ e.day
    → d.time ≡ e.time
    → instant d ≡ instant e
unfolding instant days
same_month d e vd ve i p q = omega (arith, ap month_start i)

on_day-IsValid :
    (y m day time : ℕ)
    → 1 ≤ y
    → 1 ≤ m
    → m ≤ 12
    → 1 ≤ day
    → day ≤ month_length y m
    → time < day_length
    → IsValid (on_day y m day time)
on_day-IsValid y m day time a b c d e f = record {
  year_in = a;
  month_in = (b, c);
  day_in = (d, e);
  time_in = f;
}

abbrev year_after : (y m : ℕ) → ℕ
year_after y m = if m == 12 then y + 1 else y

abbrev month_after : ℕ → ℕ
month_after m = if m == 12 then 1 else m + 1

index_after :
    (y m : ℕ)
    → 1 ≤ m
    → m ≤ 12
    → month_index (year_after y m) (month_after m) ≡ suc (month_index y m)
index_after y m b e = ground (arith, b, e)

ok-eq : {a b : DateTime} → ok a ≡ ok b → a ≡ b
ok-eq h = cc

module _ (day time : ℕ) (after : DateTime) (v : IsValid after) (early : 1 ≤ day)
    (h : time < day_length) where
  -- No match after `after` lies before the month with this index.
  abbrev NoneBefore : ℕ → Type 0
  NoneBefore i =
      (d : DateTime) → IsValid d → Monthly day time d → instant after < instant d → i ≤ index_of d

  hit :
      (y m : ℕ)
      → 1 ≤ y
      → 1 ≤ m
      → m ≤ 12
      → NoneBefore (month_index y m)
      → day ≤ month_length y m
      → instant after < instant (on_day y m day time)
      → IsNext (Monthly day time) after (on_day y m day time)
  hit y m a b e none_before fits lt = record {
    valid = vc;
    matches = (refl, refl);
    after_it = lt;
    first = first;
  }
    where
      vc : IsValid (on_day y m day time)
      vc = on_day-IsValid y m day time a b e early fits h

      first :
          (d : DateTime)
          → IsValid d
          → Monthly day time d
          → instant after < instant d
          → instant (on_day y m day time) ≤ instant d
      first d vd match lt' = elim (dec_lt (month_index y m) (index_of d)) [
        | yes p ↦
            let sooner =
              instant-lt-of_days (on_day y m day time) d h
                (days_mono (on_day y m day time) d vc p) in
            omega (arith, sooner)
        | no p ↦
            let same : month_index y m ≡ index_of d = omega (arith, none_before d vd match lt') in
            let equal =
              same_month (on_day y m day time) d vc vd same (omega (arith, match.0))
                (omega (arith, match.1)) in
            omega (arith, equal)
      ]

  miss :
      (y m : ℕ)
      → 1 ≤ y
      → 1 ≤ m
      → m ≤ 12
      → NoneBefore (month_index y m)
      → (leb day (month_length y m) && later (on_day y m day time) after) ≡ false
      → NoneBefore (suc (month_index y m))
  miss y m a b e none_before no_hit d vd match lt = elim (dec_lt (month_index y m) (index_of d)) [
    | yes p ↦ p
    | no p ↦
        let same : month_index y m ≡ index_of d = omega (arith, none_before d vd match lt) in
        let year : d.year ≡ y = omega (arith, vd.month_in) in
        let month : d.month ≡ m = omega (arith, vd.month_in, year) in
        let fits : day ≤ month_length y m =
          rw (← year, ← month) (omega (arith, vd.day_in, match.0)) in
        absurd (never same fits)
  ]
    where
      never : month_index y m ≡ index_of d → day ≤ month_length y m → ⊥
      never same fits =
          let vc = on_day-IsValid y m day time a b e early fits h in
          let equal =
            same_month (on_day y m day time) d vc vd same (omega (arith, match.0))
              (omega (arith, match.1)) in
          elim (later_test (on_day y m day time) after) [
            | inl (is_later, _) ↦ ground (arith, no_hit, is_later, fits)
            | inr (_, ge) ↦ omega (arith, equal, ge)
          ]

  abbrev is_hit : (y m : ℕ) → Bool
  is_hit y m = leb day (month_length y m) && later (on_day y m day time) after

  find_hit :
      (tries y m : ℕ)
      → is_hit y m ≡ true
      → find_month (suc tries) y m day time after ≡ ok (on_day y m day time)
  unfolding find_month
  find_hit tries y m t = rw t refl

  find_miss :
      (tries y m : ℕ)
      → is_hit y m ≡ false
      → find_month (suc tries) y m day time after
        ≡ find_month tries (year_after y m) (month_after m) day time after
  unfolding find_month
  find_miss tries y m t = rw t refl

  hit_parts :
      (y m : ℕ)
      → is_hit y m ≡ true
      → (day ≤ month_length y m) × (instant after < instant (on_day y m day time))
  hit_parts y m t = elim (later_test (on_day y m day time) after) [
    | inl (e, lt) ↦ (ground (arith, t), lt)
    | inr (e, ge) ↦ absurd (never e)
  ]
    where
      never : later (on_day y m day time) after ≡ false → ⊥
      never e = ground (arith, t, e)

  -- What the loop returns is the next match.
  find_month-IsNext :
      (tries y m : ℕ) (c : DateTime)
      → 1 ≤ y
      → 1 ≤ m
      → m ≤ 12
      → NoneBefore (month_index y m)
      → find_month tries y m day time after ≡ ok c
      → IsNext (Monthly day time) after c
  find_month-IsNext zero y m c a b e none_before r = absurd (empty r)
    where
      empty : find_month 0 y m day time after ≡ ok c → ⊥
      empty q = unfold find_month in cc
  find_month-IsNext (suc tries) y m c a b e none_before r = elim (Bool-cases (is_hit y m)) [
    | inl t ↦
        let parts = hit_parts y m t in
        subst (IsNext (Monthly day time) after) (ok-eq (sym (find_hit tries y m t) ∙ r))
          (hit y m a b e none_before parts.0 parts.1)
    | inr t ↦
        let skipped = miss y m a b e none_before t in
        let next = index_after y m b e in
        find_month-IsNext tries (year_after y m) (month_after m) c (ground (arith, a))
          (ground arith) (ground (arith, e))
          (λ d vd match lt. omega (arith, skipped d vd match lt, next))
          (sym (find_miss tries y m t) ∙ r)
  ]

  -- In a month past that of `after` the day matches if the month has it.
  hit_later :
      (y m : ℕ)
      → 1 ≤ y
      → 1 ≤ m
      → m ≤ 12
      → index_of after < month_index y m
      → day ≤ month_length y m
      → is_hit y m ≡ true
  hit_later y m a b e past fits =
      let vc = on_day-IsValid y m day time a b e early fits h in
      let lt =
        instant-lt-of_days after (on_day y m day time) v.time_in
          (days_mono after (on_day y m day time) v past) in
      elim (later_test (on_day y m day time) after) [
        | inl (is_later, _) ↦ ground (arith, is_later, fits)
        | inr (_, ge) ↦ absurd (omega (arith, lt, ge))
      ]

  abbrev Found : ℕ → (y m : ℕ) → Type 0
  Found tries y m = (c : DateTime) × (find_month tries y m day time after ≡ ok c)

  -- Two months past that of `after` are enough, for a day up to the 31st.
  Found-later :
      (tries y m : ℕ)
      → 1 ≤ y
      → 1 ≤ m
      → m ≤ 12
      → day ≤ 31
      → index_of after < month_index y m
      → Found (suc (suc tries)) y m
  Found-later tries y m a b e small past = elim (Bool-cases (is_hit y m)) [
    | inl t ↦ (on_day y m day time, find_hit (suc tries) y m t)
    | inr t ↦
        let short : month_length y m < day = elim (dec_lt (month_length y m) day) [
          | yes p ↦ p
          | no p ↦ absurd (no_miss t (omega (arith, p)))
        ] in
        let long =
          long_month y (year_after y m) m (month_after m) b e refl (omega (arith, short)) in
        let next = index_after y m b e in
        let t' =
          hit_later (year_after y m) (month_after m) (ground (arith, a)) (ground arith)
            (ground (arith, e)) (omega (arith, past, next)) (omega (arith, long, small)) in
        (
          on_day (year_after y m) (month_after m) day time,
          find_miss (suc tries) y m t ∙ find_hit tries (year_after y m) (month_after m) t',
        )
  ]
    where
      no_miss : is_hit y m ≡ false → day ≤ month_length y m → ⊥
      no_miss t fits = ground (arith, t, hit_later y m a b e past fits)

  -- The loop finds a month, and what it finds is the next match.
  pub next_monthly_lem :
      (tries : ℕ)
      → day ≤ 31
      → (c : DateTime) × (find_month (suc (suc (suc tries))) after.year after.month day time after
          ≡ ok c)
        × IsNext (Monthly day time) after c
  next_monthly_lem tries small =
      let (c, r) = found in
      (
        c,
        r,
        find_month-IsNext (suc (suc (suc tries))) after.year after.month c v.year_in v.month_in.0
            v.month_in.1 none_before r,
      )
    where
      none_before : NoneBefore (month_index after.year after.month)
      none_before d vd match lt = elim (dec_lt (index_of d) (index_of after)) [
        | yes p ↦
            let sooner = instant-lt-of_days d after vd.time_in (days_mono d after vd p) in
            absurd (omega (arith, sooner, lt))
        | no p ↦ omega (arith, p)
      ]

      found : Found (suc (suc (suc tries))) after.year after.month
      found = elim (Bool-cases (is_hit after.year after.month)) [
        | inl t ↦ (
          on_day after.year after.month day time,
          find_hit (suc (suc tries)) after.year after.month t,
        )
        | inr t ↦
            let next = index_after after.year after.month v.month_in.0 v.month_in.1 in
            let (c, r) =
              Found-later tries (year_after after.year after.month) (month_after after.month)
                (ground (arith, v.year_in)) (ground arith) (ground (arith, v.month_in.1)) small
                (omega (arith, next)) in
            (c, find_miss (suc (suc tries)) after.year after.month t ∙ r)
      ]
