-- ===== src/Greet/Script.antt =====
-- What `_GREET_RESERVE_LUA` of backend/app/services/flirt_greet_service.py does to the key of a day.
use new1v.Prelude.{
  ℕ, ◌+◌, ◌-◌, ◌*◌, ◌/◌, ◌%◌, ◌≤◌, ◌<◌, ◌≡◌, refl, Bool, true, false, ◌&&◌, Option, none, some, ltb,
  ◌==◌, if◌then◌else◌, arith, inl, inr, Bool-cases, if-both,
}
use new1v.Greet.{
  GreetKeys, DailyKey, day_of, day_length, second, calculate_greet_daily_ttl, is_live, missing_key,
  found_at, greet_reserve_lua, incremented, ReserveStatus, reserved, ScriptReply, cooling, counted,
  set_daily, ttl_at,
}

abbrev pub is_reserved : ReserveStatus → Bool
is_reserved reserved = true
is_reserved _ = false

abbrev pub on_day : (day user_id : ℕ) → (now other : ℕ) → Bool
on_day day user_id now other = (day_of now == day) && (other == user_id)

abbrev pub one_if : Bool → ℕ
one_if b = if b then 1 else 0

-- Not in the last second of the day.
abbrev pub IsEarly : ℕ → Type 0
IsEarly now = now % day_length + second ≤ day_length

abbrev pub Late : ℕ → Option ℕ → Type 0
Late day none = Unit
Late day (some expires) = day * day_length + day_length < expires + second

-- The value is within the limit, and the key stays until the last second of the day.
abbrev pub Fits : (day daily_limit : ℕ) → DailyKey → Type 0
Fits day daily_limit key = (key.up ≤ daily_limit + key.down) × Late day key.expires

abbrev pub key_of : Option DailyKey → DailyKey
key_of none = missing_key
key_of (some key) = key

fresh-Late : (now : ℕ) → Late (day_of now) (some (now + calculate_greet_daily_ttl now * second))
unfolding calculate_greet_daily_ttl
fresh-Late now =
    let whole = (day_length - now % day_length) / second in
    elim (Bool-cases (ltb whole 1)) [
      | inl e ↦ rw e (ground (arith, e))
      | inr e ↦ rw e (ground (arith, e))
    ]

-- Before the last second of its day, a key is found as it is.
pub found_lem :
    (daily_limit now : ℕ) (o : Option DailyKey)
    → IsEarly now
    → Fits (day_of now) daily_limit (key_of o)
    → found_at now o ≡ key_of o
found_lem daily_limit now none early h = refl
found_lem daily_limit now (some key) early h = rw (live key.expires h.1) refl
  where
    live : (o : Option ℕ) → Late (day_of now) o → is_live now o ≡ true
    live none l = refl
    live (some expires) l = ground (arith, l, early)

pub set_daily-same :
    (day user_id : ℕ) (key : DailyKey) (k : GreetKeys)
    → (set_daily day user_id key k).daily day user_id ≡ some key
set_daily-same day user_id key k = ground arith

pub set_daily-other :
    (day user_id d u : ℕ) (key : DailyKey) (k : GreetKeys)
    → ((d == day) && (u == user_id)) ≡ false
    → (set_daily day user_id key k).daily d u ≡ k.daily d u
set_daily-other day user_id d u key k e = ground (arith, e)

-- The key after a step that may have reserved a greeting, against the one before: the value has
-- grown by it.
pub record CountsKey (day daily_limit : ℕ) (before key : DailyKey) (got : Bool) : Type 0 where
  pub fits : Fits day daily_limit key
  pub grown : one_if got + before.up + key.down ≤ key.up + before.down

abbrev pub Counts : (day user_id daily_limit : ℕ) → DailyKey → GreetKeys → Bool → Type 0
Counts day user_id daily_limit before k got =
    CountsKey day daily_limit before (key_of (k.daily day user_id)) got

abbrev is_counted : ScriptReply → Bool
is_counted (counted up down) = true
is_counted _ = false

abbrev pub CountsScript :
    (day user_id daily_limit : ℕ) → DailyKey → GreetKeys × ScriptReply → Type 0
CountsScript day user_id daily_limit before r =
    Counts day user_id daily_limit before r.0 (is_counted r.1)

incremented-Late :
    (day fresh : ℕ) (key : DailyKey)
    → Late day key.expires
    → Late day (some fresh)
    → Late day (incremented fresh key).expires
incremented-Late day fresh key h f =
    if-both (Late day) (key.up == key.down) (some fresh) key.expires f h

pub lua-Counts :
    (user_id daily_limit now : ℕ) (k : GreetKeys)
    → IsEarly now
    → Fits (day_of now) daily_limit (key_of (k.daily (day_of now) user_id))
    → CountsScript
        (day_of now)
        user_id
        daily_limit
        (key_of (k.daily (day_of now) user_id))
        (greet_reserve_lua user_id daily_limit now k)
unfolding greet_reserve_lua
lua-Counts user_id daily_limit now k early h =
    rw (found_lem daily_limit now (k.daily (day_of now) user_id) early h) (
      if-both P (ltb 0 (ttl_at now (k.cooldown user_id)))
        (k, cooling (ttl_at now (k.cooldown user_id))) _ (record { fits = h; grown = omega arith })
        (elim (Bool-cases (ltb (daily_limit + key.down) (key.up + 1))) [
          | inl e ↦
              rw (e, set_daily-same (day_of now) user_id (record next { down = next.down + 1 }) k)
                (record { fits = (omega (arith, h.0), late); grown = omega arith })
          | inr e ↦
              rw (e, set_daily-same (day_of now) user_id next k)
                (record { fits = (ground (arith, e), late); grown = omega arith })
        ]))
  where
    key : DailyKey
    key = key_of (k.daily (day_of now) user_id)

    P : GreetKeys × ScriptReply → Type 0
    P = CountsScript (day_of now) user_id daily_limit (key_of (k.daily (day_of now) user_id))

    fresh : ℕ
    fresh = now + calculate_greet_daily_ttl now * second

    next : DailyKey
    next = incremented fresh key

    late : Late (day_of now) next.expires
    late = incremented-Late (day_of now) fresh key h.1 (fresh-Late now)
