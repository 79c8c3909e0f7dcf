-- ===== src/Calendar/Days.antt =====
-- How the operations on dates move along the days.
use native.Mathlib.Decide.{dec_lt}
use new1v.Prelude.{
  ℕ, zero, suc, ◌+◌, ◌-◌, ◌*◌, ◌/◌, ◌%◌, ◌≤◌, ◌<◌, ◌≡◌, refl, ltb, leb, arith, inl, inr, Bool-cases,
  ap, ◌∙◌,
}
use new1v.Calendar.{
  DateTime, IsValid, day_length, second, month_length, month_start, month_index, days, instant,
  next_month, next_day, add_days, previous_day, minus_second,
}

pub month_length_bounds : (y m : ℕ) → (28 ≤ month_length y m) × (month_length y m ≤ 31)
unfolding month_length
month_length_bounds y m = ground arith

-- A month's start is followed by the next one's after the month's length.
pub month_start-suc :
    (y m : ℕ)
    → 1 ≤ m
    → m ≤ 12
    → month_start (suc (month_index y m)) ≡ month_start (month_index y m) + month_length y m
unfolding month_start
month_start-suc y m h k =
    let year : (y * 12 + (m - 1)) / 12 ≡ y = omega arith in
    let month : (y * 12 + (m - 1)) % 12 + 1 ≡ m = omega arith in simp (year, month) refl

pub month_start_mono : (n m : ℕ) → n ≤ m → month_start n ≤ month_start m
unfolding month_start
month_start_mono n zero h = let none : n ≡ 0 = omega arith in rw none (omega arith)
month_start_mono n (suc m) h = elim (dec_lt n (suc m)) [
  | yes lt ↦ omega (arith, month_start_mono n m (omega arith))
  | no ge ↦ let same : n ≡ suc m = omega arith in rw same (omega arith)
]

-- A day of a month comes before the days of the later months.
pub days_mono :
    (t u : DateTime)
    → IsValid t
    → month_index t.year t.month < month_index u.year u.month
    → days t < days u
unfolding days
days_mono t u v h = omega (
  arith,
  month_start-suc t.year t.month v.month_in.0 v.month_in.1,
  month_start_mono (suc (month_index t.year t.month)) (month_index u.year u.month) (omega arith),
  v.day_in.0,
  v.day_in.1,
)

-- An earlier day is an earlier instant, whatever the times of day.
pub instant-lt-of_days :
    (t u : DateTime) → t.time < day_length → days t < days u → instant t < instant u
unfolding instant
instant-lt-of_days t u h k = omega arith

pub next_day-IsValid : (t : DateTime) → IsValid t → IsValid (next_day t)
unfolding next_day
next_day-IsValid t v =
    ground (arith, month_length_bounds t.year (t.month + 1), month_length_bounds (t.year + 1) 1)

next_index :
    (t : DateTime)
    → IsValid t
    → month_index (next_month t).year (next_month t).month ≡ suc (month_index t.year t.month)
next_index t v = ground arith

pub days-next_day : (t : DateTime) → IsValid t → days (next_day t) ≡ days t + 1
unfolding days next_day
days-next_day t v = elim (Bool-cases (ltb t.day (month_length t.year t.month))) [
  | inl e ↦ rw e (omega (arith, v.day_in.0))
  | inr e ↦
      let last : t.day ≡ month_length t.year t.month = ground (arith, e, v.day_in.1) in
      let first : (next_month t).day ≡ 1 = ground arith in
      rw e (
        omega (
          arith,
          ap month_start (next_index t v),
          month_start-suc t.year t.month v.month_in.0 v.month_in.1,
          v.day_in.0,
          last,
          first,
        ))
]

pub time-next_day : (t : DateTime) → (next_day t).time ≡ t.time
unfolding next_day
time-next_day t = ground arith

-- Adding days moves along the days and keeps the time.
pub add_days-IsValid : (n : ℕ) (t : DateTime) → IsValid t → IsValid (add_days n t)
unfolding add_days
add_days-IsValid zero t v = v
add_days-IsValid (suc n) t v = add_days-IsValid n (next_day t) (next_day-IsValid t v)

pub days-add_days : (n : ℕ) (t : DateTime) → IsValid t → days (add_days n t) ≡ days t + n
unfolding add_days
days-add_days zero t v = omega arith
days-add_days (suc n) t v =
    omega (arith, days-add_days n (next_day t) (next_day-IsValid t v), days-next_day t v)

pub time-add_days : (n : ℕ) (t : DateTime) → (add_days n t).time ≡ t.time
unfolding add_days
time-add_days zero t = refl
time-add_days (suc n) t = time-add_days n (next_day t) ∙ time-next_day t

previous_day-IsValid : (t : DateTime) → IsValid t → 1 < t.year → IsValid (previous_day t)
unfolding previous_day
previous_day-IsValid t v y = ground (
  arith,
  month_length_bounds t.year t.month,
  month_length_bounds t.year (t.month - 1),
  month_length_bounds (t.year - 1) 12,
)

-- The last day of a month comes right before the next month.
last_day :
    (y m n : ℕ)
    → 1 ≤ m
    → m ≤ 12
    → n ≡ suc (month_index y m)
    → month_start (month_index y m) + (month_length y m - 1) + 1 ≡ month_start n
last_day y m n h k e =
    omega (arith, month_start-suc y m h k, month_length_bounds y m, ap month_start e)

days-previous_day : (t : DateTime) → IsValid t → 1 < t.year → days (previous_day t) + 1 ≡ days t
unfolding days previous_day
days-previous_day t v y = elim (Bool-cases (ltb 1 t.day)) [
  | inl e ↦ rw e (ground (arith, e))
  | inr e ↦ elim (Bool-cases (ltb 1 t.month)) [
    | inl f ↦
        rw (e, f)
          (ground (
            arith,
            e,
            f,
            v.day_in.0,
            last_day t.year (t.month - 1) (month_index t.year t.month) (ground (arith, f))
                (omega (arith, v.month_in.1)) (ground (arith, f)),
          ))
    | inr f ↦
        rw (e, f)
          (ground (
            arith,
            e,
            f,
            v.day_in.0,
            last_day (t.year - 1) 12 (month_index t.year t.month) (omega arith) (omega arith)
                (ground (arith, f, v.month_in.0, y)),
          ))
  ]
]

pub minus_second-IsValid : (t : DateTime) → IsValid t → 1 < t.year → IsValid (minus_second t)
unfolding minus_second
minus_second-IsValid t v y = ground (arith, previous_day-IsValid t v y)

-- A second is taken from the instant.
pub instant-minus_second :
    (t : DateTime) → IsValid t → 1 < t.year → instant (minus_second t) + second ≡ instant t
unfolding instant minus_second days
instant-minus_second t v y = elim (Bool-cases (leb second t.time)) [
  | inl e ↦
      let same = with_time t (t.time - second) in
      let enough : second ≤ t.time = ground (arith, e) in rw e (omega (arith, same, enough))
  | inr e ↦
      let same = with_time (previous_day t) (t.time + day_length - second) in
      let day_before = days-previous_day t v y in rw e (omega (arith, same, day_before))
]
  where
    with_time : (u : DateTime) (time : ℕ) → days (record u { time = time }) ≡ days u
    with_time u time = refl
