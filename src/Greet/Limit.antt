-- ===== src/Greet/Limit.antt =====
-- The quota holds however the requests interleave.
use new1v.Prelude.{
  ℕ, ◌+◌, ◌≤◌, ◌≡◌, true, ◌&&◌, List, [], ◌∷◌, ◌==◌, arith, inl, inr, Bool-cases, subst,
}
use new1v.Greet.{
  GreetKeys, GreetQuota, no_keys, day_of, reserve_after, set_greet_cooldown, GreetCall, reserve,
  release, cool, run_greet,
}
use new1v.Greet.Script.{is_reserved, on_day, one_if, IsEarly, Fits, key_of}
use new1v.Greet.Requests.{reserve-Counts, reserve-other, release-other, release-Releases}

-- Every reservation and release of the user on the day comes before the last second of the day.
abbrev pub IsTimely : (day user_id : ℕ) → GreetCall → Type 0
IsTimely day user_id (reserve quota other now) = on_day day user_id now other ≡ true → IsEarly now
IsTimely day user_id (release used other now) = on_day day user_id now other ≡ true → IsEarly now
IsTimely day user_id (cool other seconds now) = Unit

abbrev pub AllTimely : (day user_id : ℕ) → List GreetCall → Type 0
AllTimely day user_id [] = Unit
AllTimely day user_id (c ∷ calls) = IsTimely day user_id c × AllTimely day user_id calls

-- The greetings that a call reserves for the user on the day, and those that it gives back.
unfoldable pub reserves : (day user_id daily_limit : ℕ) → GreetCall → GreetKeys → ℕ
reserves day user_id daily_limit (reserve quota other now) k =
    one_if (
      on_day day user_id now other && is_reserved (reserve_after quota other daily_limit now k).1.0)
reserves day user_id daily_limit _ k = 0

unfoldable pub releases : (day user_id : ℕ) → GreetCall → ℕ
releases day user_id (release used other now) = one_if (on_day day user_id now other)
releases day user_id _ = 0

unfoldable pub all_reserved : (day user_id daily_limit : ℕ) → List GreetCall → GreetKeys → ℕ
all_reserved day user_id daily_limit [] k = 0
all_reserved day user_id daily_limit (c ∷ calls) k =
    reserves day user_id daily_limit c k
    + all_reserved day user_id daily_limit calls (run_greet daily_limit c k)

unfoldable pub all_released : (day user_id : ℕ) → List GreetCall → ℕ
all_released day user_id [] = 0
all_released day user_id (c ∷ calls) = releases day user_id c + all_released day user_id calls

-- A call keeps the key of the day within the limit, and its value records what was reserved and not
-- released.
record Next (day user_id daily_limit : ℕ) (c : GreetCall) (k : GreetKeys) : Type 0 where
  fits : Fits day daily_limit (key_of ((run_greet daily_limit c k).daily day user_id))
  counts :
      reserves day user_id daily_limit c k
        + (key_of (k.daily day user_id)).up
        + (key_of ((run_greet daily_limit c k).daily day user_id)).down
      ≤ (key_of ((run_greet daily_limit c k).daily day user_id)).up
        + (key_of (k.daily day user_id)).down
        + releases day user_id c

abbrev KeepsFit : (daily_limit : ℕ) → GreetCall → GreetKeys → (day user_id : ℕ) → Type 0
KeepsFit daily_limit c k day user_id =
    Fits day daily_limit (key_of (k.daily day user_id)) → Next day user_id daily_limit c k

-- What holds of the day and the user of a call holds of all that are equal to them.
at_key :
    (P : ℕ → ℕ → Type 0) (day user_id now other : ℕ)
    → on_day day user_id now other ≡ true
    → P (day_of now) other
    → P day user_id
at_key P day user_id now other e p =
    let (d, u) = both e in subst (λ x. P x user_id) d (subst (P (day_of now)) u p)
  where
    both : on_day day user_id now other ≡ true → (day_of now ≡ day) × (other ≡ user_id)
    both e = ground (arith, e)

on_day_self : (user_id now : ℕ) → on_day (day_of now) user_id now user_id ≡ true
on_day_self user_id now = ground arith

reserve-Next :
    (day user_id daily_limit : ℕ) (quota : GreetQuota) (other now : ℕ) (k : GreetKeys)
    → IsTimely day user_id (reserve quota other now)
    → KeepsFit daily_limit (reserve quota other now) k day user_id
unfolding run_greet reserves releases
reserve-Next day user_id daily_limit quota other now k timely =
    elim (Bool-cases (on_day day user_id now other)) [
      | inr e ↦ λ h.
          let same = reserve-other day user_id quota other daily_limit now k e in
          record { fits = rw same h; counts = rw (e, same) (omega arith) }
      | inl e ↦
          at_key (KeepsFit daily_limit (reserve quota other now) k) day user_id now other e (λ h.
            let c = reserve-Counts quota other daily_limit now k (timely e) h in
            record { fits = c.fits; counts = rw (on_day_self other now) (omega (arith, c.grown)) })
    ]

release-Next :
    (day user_id daily_limit used other now : ℕ) (k : GreetKeys)
    → IsTimely day user_id (release used other now)
    → KeepsFit daily_limit (release used other now) k day user_id
unfolding run_greet reserves releases
release-Next day user_id daily_limit used other now k timely =
    elim (Bool-cases (on_day day user_id now other)) [
      | inr e ↦ λ h.
          let same = release-other day user_id used other now k e in
          record { fits = rw same h; counts = rw (e, same) (omega arith) }
      | inl e ↦
          at_key (KeepsFit daily_limit (release used other now) k) day user_id now other e (λ h.
            let c = release-Releases used other daily_limit now k (timely e) h in
            record {
              fits = c.fits;
              counts = rw (on_day_self other now) (omega (arith, c.lowered));
            })
    ]

cool-Next :
    (day user_id daily_limit other seconds now : ℕ) (k : GreetKeys)
    → KeepsFit daily_limit (cool other seconds now) k day user_id
unfolding run_greet reserves releases set_greet_cooldown
cool-Next day user_id daily_limit other seconds now k h = elim (Bool-cases (seconds == 0)) [
  | inl e ↦ record { fits = rw e h; counts = rw e (omega arith) }
  | inr e ↦ record { fits = rw e h; counts = rw e (omega arith) }
]

call-Next :
    (day user_id daily_limit : ℕ) (c : GreetCall) (k : GreetKeys)
    → IsTimely day user_id c
    → KeepsFit daily_limit c k day user_id
call-Next day user_id daily_limit (reserve quota other now) k timely =
    reserve-Next day user_id daily_limit quota other now k timely
call-Next day user_id daily_limit (release used other now) k timely =
    release-Next day user_id daily_limit used other now k timely
call-Next day user_id daily_limit (cool other seconds now) k timely =
    cool-Next day user_id daily_limit other seconds now k

reserved-from :
    (day user_id daily_limit : ℕ) (calls : List GreetCall) (k : GreetKeys)
    → AllTimely day user_id calls
    → Fits day daily_limit (key_of (k.daily day user_id))
    → all_reserved day user_id daily_limit calls k + (key_of (k.daily day user_id)).up
      ≤ daily_limit + all_released day user_id calls + (key_of (k.daily day user_id)).down
unfolding all_reserved all_released
reserved-from day user_id daily_limit [] k timely h = omega (arith, h.0)
reserved-from day user_id daily_limit (c ∷ calls) k timely h =
    let n = call-Next day user_id daily_limit c k timely.0 h in
    omega (
      arith,
      n.counts,
      reserved-from day user_id daily_limit calls (run_greet daily_limit c k) timely.1 n.fits,
    )

-- The requests of all users interleave, each going by a quota or a count that it may have read at any
-- time before, and none of a user's on a day comes in the last second of that day, when the day's
-- key may have expired already. From no keys on, the greetings that are reserved for the user on the
-- day are then at most the daily limit and one more for each release of that user on that day.
pub greetings_limited :
    (day user_id daily_limit : ℕ) (calls : List GreetCall)
    → AllTimely day user_id calls
    → all_reserved day user_id daily_limit calls no_keys
      ≤ daily_limit + all_released day user_id calls
greetings_limited day user_id daily_limit calls timely =
    omega (arith, reserved-from day user_id daily_limit calls no_keys timely (omega arith, tt))
