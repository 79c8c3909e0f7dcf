-- ===== src/Greet.antt =====
-- The daily quota of greetings, backend/app/services/flirt_greet_service.py. Redis
-- answers. The clock is in microseconds of local time.
pub mod Script
pub mod Requests
pub mod Limit
use new1v.Prelude.{
  ℕ, ◌+◌, ◌-◌, ◌*◌, ◌/◌, ◌%◌, Bool, true, false, not, ◌&&◌, Option, none, some, List, [], ◌∷◌, ltb,
  ◌==◌, if◌then◌else◌,
}

-- A counter of Redis: its value is `up` less `down`, and may be negative. A key that a `DECR` has
-- made never expires.
pub record DailyKey : Type 0 where
  pub up : ℕ
  pub down : ℕ
  pub expires : Option ℕ

-- `daily` is by day and user, `cooldown` the instant of expiry by user.
pub record GreetKeys : Type 0 where
  pub daily : ℕ → ℕ → Option DailyKey
  pub cooldown : ℕ → Option ℕ

abbrev pub no_keys : GreetKeys
no_keys = record { daily = λ day user_id. none; cooldown = λ user_id. none }

abbrev pub second : ℕ
second = 1000000

abbrev pub day_length : ℕ
day_length = 86400 * 1000000

abbrev pub day_of : ℕ → ℕ
day_of now = now / day_length

-- Whole seconds until tomorrow, rounded down, and at least one.
unfoldable pub calculate_greet_daily_ttl : ℕ → ℕ
calculate_greet_daily_ttl now =
    let whole = (day_length - now % day_length) / second in if ltb whole 1 then 1 else whole

abbrev pub is_live : ℕ → Option ℕ → Bool
is_live now none = true
is_live now (some expires) = ltb now expires

abbrev pub missing_key : DailyKey
missing_key = record { up = 0; down = 0; expires = none }

-- The key as Redis finds it: a missing or expired one counts 0.
abbrev pub found_at : ℕ → Option DailyKey → DailyKey
found_at now none = missing_key
found_at now (some key) = if is_live now key.expires then key else missing_key

-- `max(0, used)`
abbrev pub used_at : ℕ → Option DailyKey → ℕ
used_at now o = (found_at now o).up - (found_at now o).down

-- `TTL` of a cooldown, which Redis rounds to the nearest second.
abbrev pub ttl_at : ℕ → Option ℕ → ℕ
ttl_at now none = 0
ttl_at now (some expires) = (expires - now + 500000) / second

pub record GreetQuota : Type 0 where
  pub daily_limit : ℕ
  pub used : ℕ
  pub remaining : ℕ
  pub enabled : Bool
  pub cooldown_seconds : ℕ

abbrev build_greet_quota_payload : (daily_limit used cooldown_seconds : ℕ) → GreetQuota
build_greet_quota_payload daily_limit used cooldown_seconds = record {
  daily_limit = daily_limit;
  used = used;
  remaining = daily_limit - used;
  enabled = ltb 0 daily_limit;
  cooldown_seconds = cooldown_seconds;
}

unfoldable pub get_greet_quota : (user_id daily_limit now : ℕ) → GreetKeys → GreetQuota
get_greet_quota user_id daily_limit now k =
    build_greet_quota_payload daily_limit (used_at now (k.daily (day_of now) user_id))
      (ttl_at now (k.cooldown user_id))

abbrev pub set_daily : (day user_id : ℕ) → DailyKey → GreetKeys → GreetKeys
set_daily day user_id key k = record k {
  daily = λ d u. if (d == day) && (u == user_id) then some key else k.daily d u;
}

pub data ScriptReply : Type 0 where
  cooling : (seconds : ℕ) → ScriptReply
  too_many : ScriptReply
  counted : (up down : ℕ) → ScriptReply

-- The counter after `INCR` and, where it is then 1, `EXPIRE`.
abbrev pub incremented : ℕ → DailyKey → DailyKey
incremented fresh key = record {
  up = key.up + 1;
  down = key.down;
  expires = if key.up == key.down then some fresh else key.expires;
}

-- `_GREET_RESERVE_LUA`, which Redis runs as one step.
unfoldable pub greet_reserve_lua :
    (user_id daily_limit now : ℕ) → GreetKeys → GreetKeys × ScriptReply
unfolding calculate_greet_daily_ttl
greet_reserve_lua user_id daily_limit now k =
    let key =
      incremented (now + calculate_greet_daily_ttl now * second)
        (found_at now (k.daily (day_of now) user_id)) in
    if ltb 0 (ttl_at now (k.cooldown user_id))
    then (k, cooling (ttl_at now (k.cooldown user_id)))
    else if ltb (daily_limit + key.down) key.up
    then (set_daily (day_of now) user_id (record key { down = key.down + 1 }) k, too_many)
    else (set_daily (day_of now) user_id key k, counted key.up key.down)

pub data ReserveStatus : Type 0 where
  disabled on_cooldown exhausted reserved : ReserveStatus

abbrev pub of_script : (daily_limit used : ℕ) → ScriptReply → ReserveStatus × GreetQuota
of_script daily_limit used (cooling seconds) =
    (on_cooldown, build_greet_quota_payload daily_limit used seconds)
of_script daily_limit used too_many =
    (exhausted, build_greet_quota_payload daily_limit daily_limit 0)
of_script daily_limit used (counted up down) =
    if up + 1 == down
    then (on_cooldown, build_greet_quota_payload daily_limit used 0)
    else if up == down
    then (exhausted, build_greet_quota_payload daily_limit daily_limit 0)
    else (reserved, build_greet_quota_payload daily_limit (up - down) 0)

-- What follows the reading of the quota; other requests may have run in between.
unfoldable pub reserve_after :
    GreetQuota
    → (user_id daily_limit now : ℕ) → GreetKeys
    → GreetKeys × (ReserveStatus × GreetQuota)
reserve_after quota user_id daily_limit now k =
    let run = greet_reserve_lua user_id daily_limit now k in
    if not quota.enabled
    then (k, (disabled, quota))
    else if ltb 0 quota.cooldown_seconds
    then (k, (on_cooldown, quota))
    else if not (ltb 0 quota.remaining)
    then (k, (exhausted, quota))
    else (run.0, of_script daily_limit quota.used run.1)

unfoldable pub reserve_greet_quota :
    (user_id daily_limit now : ℕ) → GreetKeys → GreetKeys × (ReserveStatus × GreetQuota)
reserve_greet_quota user_id daily_limit now k =
    reserve_after (get_greet_quota user_id daily_limit now k) user_id daily_limit now k

-- What follows the reading of the count: `DECR`, whatever the counter is by then.
unfoldable pub release_after : (used user_id now : ℕ) → GreetKeys → GreetKeys
release_after used user_id now k =
    let key = found_at now (k.daily (day_of now) user_id) in
    if ltb 0 used then set_daily (day_of now) user_id (record key { down = key.down + 1 }) k else k

unfoldable pub release_greet_quota : (user_id now : ℕ) → GreetKeys → GreetKeys
release_greet_quota user_id now k =
    release_after (used_at now (k.daily (day_of now) user_id)) user_id now k

unfoldable pub set_greet_cooldown : (user_id cooldown_seconds now : ℕ) → GreetKeys → GreetKeys
set_greet_cooldown user_id cooldown_seconds now k = if cooldown_seconds == 0 then k else record k {
  cooldown = λ u. if u == user_id then some (now + cooldown_seconds * second) else k.cooldown u;
}

-- What the requests of many users do to the keys. A request is split where it waits for Redis: the
-- quota and the count that it goes by may have been read at any time before.
pub data GreetCall : Type 0 where
  reserve : (quota : GreetQuota) (user_id now : ℕ) → GreetCall
  release : (used user_id now : ℕ) → GreetCall
  cool : (user_id cooldown_seconds now : ℕ) → GreetCall

unfoldable pub run_greet : (daily_limit : ℕ) → GreetCall → GreetKeys → GreetKeys
run_greet daily_limit (reserve quota user_id now) k =
    (reserve_after quota user_id daily_limit now k).0
run_greet daily_limit (release used user_id now) k = release_after used user_id now k
run_greet daily_limit (cool user_id seconds now) k = set_greet_cooldown user_id seconds now k
