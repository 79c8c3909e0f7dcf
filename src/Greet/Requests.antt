-- ===== src/Greet/Requests.antt =====
-- What a reservation and a release do to the key of their day, and to others.
use new1v.Prelude.{
  ℕ, ◌+◌, ◌*◌, ◌≤◌, ◌≡◌, refl, false, not, ◌&&◌, ltb, ◌==◌, arith, inl, inr, Bool-cases, if-both,
}
use new1v.Greet.{
  GreetKeys, DailyKey, GreetQuota, day_of, found_at, greet_reserve_lua, incremented, ReserveStatus,
  disabled, on_cooldown, exhausted, ScriptReply, cooling, too_many, counted, set_daily, ttl_at,
  of_script, reserve_after, release_after, calculate_greet_daily_ttl, second,
}
use new1v.Greet.Script.{
  is_reserved, on_day, IsEarly, Fits, key_of, found_lem, set_daily-same, set_daily-other, Counts,
  CountsScript, lua-Counts,
}

abbrev CountsReserve :
    (day user_id daily_limit : ℕ) → DailyKey → GreetKeys × (ReserveStatus × GreetQuota) → Type 0
CountsReserve day user_id daily_limit before r =
    Counts day user_id daily_limit before r.0 (is_reserved r.1.0)

script-Counts :
    (day user_id daily_limit used : ℕ) (before : DailyKey) (r : GreetKeys × ScriptReply)
    → CountsScript day user_id daily_limit before r
    → CountsReserve day user_id daily_limit before (r.0, of_script daily_limit used r.1)
script-Counts day user_id daily_limit used before (k, cooling seconds) c = c
script-Counts day user_id daily_limit used before (k, too_many) c = c
script-Counts day user_id daily_limit used before (k, counted up down) c =
    let P = CountsReserve day user_id daily_limit before in
    let none_got : Counts day user_id daily_limit before k false = record {
      fits = c.fits;
      grown = omega (arith, c.grown);
    } in
    elim (Bool-cases (up + 1 == down)) [
      | inl e ↦ rw e none_got
      | inr e ↦ elim (Bool-cases (up == down)) [ inl f ↦ rw (e, f) none_got | inr f ↦ rw (e, f) c ]
    ]

pub reserve-Counts :
    (quota : GreetQuota) (user_id daily_limit now : ℕ) (k : GreetKeys)
    → IsEarly now
    → Fits (day_of now) daily_limit (key_of (k.daily (day_of now) user_id))
    → CountsReserve
        (day_of now)
        user_id
        daily_limit
        (key_of (k.daily (day_of now) user_id))
        (reserve_after quota user_id daily_limit now k)
unfolding reserve_after
reserve-Counts quota user_id daily_limit now k early h =
    let before = key_of (k.daily (day_of now) user_id) in
    let P = CountsReserve (day_of now) user_id daily_limit before in
    let kept : P (k, (disabled, quota)) = record { fits = h; grown = omega arith } in
    if-both P (not quota.enabled) (k, (disabled, quota)) _ kept
      (if-both P (ltb 0 quota.cooldown_seconds) (k, (on_cooldown, quota)) _ kept
        (if-both P (not (ltb 0 quota.remaining)) (k, (exhausted, quota)) _ kept
          (script-Counts (day_of now) user_id daily_limit quota.used before
            (greet_reserve_lua user_id daily_limit now k)
            (lua-Counts user_id daily_limit now k early h))))

-- Requests of another day or user leave the key alone.
abbrev SameKey : (day user_id : ℕ) → GreetKeys → GreetKeys → Type 0
SameKey day user_id k u = u.daily day user_id ≡ k.daily day user_id

pub reserve-other :
    (day user_id : ℕ) (quota : GreetQuota) (other daily_limit now : ℕ) (k : GreetKeys)
    → on_day day user_id now other ≡ false
    → SameKey day user_id k (reserve_after quota other daily_limit now k).0
unfolding reserve_after greet_reserve_lua
reserve-other day user_id quota other daily_limit now k e =
    let apart : ((day == day_of now) && (user_id == other)) ≡ false = ground (arith, e) in
    let P = λ (r : GreetKeys × (ReserveStatus × GreetQuota)). SameKey day user_id k r.0 in
    let Q = λ (r : GreetKeys × ScriptReply). SameKey day user_id k r.0 in
    if-both P (not quota.enabled) (k, (disabled, quota)) _ refl
      (if-both P (ltb 0 quota.cooldown_seconds) (k, (on_cooldown, quota)) _ refl
        (if-both P (not (ltb 0 quota.remaining)) (k, (exhausted, quota)) _ refl
          (if-both Q (ltb 0 (ttl_at now (k.cooldown other))) _ _ refl (
            if-both Q (ltb (daily_limit + key.down) key.up)
              (set_daily (day_of now) other (record key { down = key.down + 1 }) k, too_many)
              (set_daily (day_of now) other key k, counted key.up key.down)
              (set_daily-other (day_of now) other day user_id (record key { down = key.down + 1 }) k
                apart)
              (set_daily-other (day_of now) other day user_id key k apart)))))
  where
    key : DailyKey
    key =
        incremented (now + calculate_greet_daily_ttl now * second)
          (found_at now (k.daily (day_of now) other))

pub release-other :
    (day user_id used other now : ℕ) (k : GreetKeys)
    → on_day day user_id now other ≡ false
    → SameKey day user_id k (release_after used other now k)
unfolding release_after
release-other day user_id used other now k e =
    if-both (SameKey day user_id k) (ltb 0 used) _ k
      (set_daily-other (day_of now) other day user_id _ k (ground (arith, e))) refl

-- The key after a release: the value is at most one less.
pub record ReleasedKey (day daily_limit : ℕ) (before key : DailyKey) : Type 0 where
  pub fits : Fits day daily_limit key
  pub lowered : before.up + key.down ≤ key.up + before.down + 1

abbrev Releases : (day user_id daily_limit : ℕ) → DailyKey → GreetKeys → Type 0
Releases day user_id daily_limit before k =
    ReleasedKey day daily_limit before (key_of (k.daily day user_id))

pub release-Releases :
    (used user_id daily_limit now : ℕ) (k : GreetKeys)
    → IsEarly now
    → Fits (day_of now) daily_limit (key_of (k.daily (day_of now) user_id))
    → Releases
        (day_of now)
        user_id
        daily_limit
        (key_of (k.daily (day_of now) user_id))
        (release_after used user_id now k)
unfolding release_after
release-Releases used user_id daily_limit now k early h =
    let key = key_of (k.daily (day_of now) user_id) in
    rw (found_lem daily_limit now (k.daily (day_of now) user_id) early h)
      (elim (Bool-cases (ltb 0 used)) [
        | inr e ↦ rw e (record { fits = h; lowered = omega arith })
        | inl e ↦
            rw (e, set_daily-same (day_of now) user_id (record key { down = key.down + 1 }) k)
              (record { fits = (omega (arith, h.0), h.1); lowered = omega arith })
      ])
