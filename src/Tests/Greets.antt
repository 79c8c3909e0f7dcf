-- ===== src/Tests/Greets.antt =====
-- The theorem on greetings, applied to user 5 on day 2 with a limit of two: two requests that have
-- both read the empty quota, a third, a release, and a fourth after the release. And what happens in
-- the last second of the day.
use new1v.Prelude.{◌≡◌, ◌≤◌, ◌+◌, refl, List, [], ◌∷◌, arith}
use new1v.Greet.{
  GreetCall, GreetQuota, no_keys, reserve, release, get_greet_quota, reserve_after, release_after,
  greet_reserve_lua, calculate_greet_daily_ttl, run_greet,
}
use new1v.Greet.Limit.{AllTimely, all_reserved, all_released, reserves, greetings_limited}

abbrev fresh : GreetQuota
fresh = get_greet_quota 5 2 172800000000 no_keys

abbrev requests : List GreetCall
requests =
    reserve fresh 5 172800000000
    ∷ (reserve fresh 5 172801000000
        ∷ (reserve fresh 5 172802000000
            ∷ (release 2 5 172803000000 ∷ (reserve fresh 5 172804000000 ∷ []))))

three_reserved : all_reserved 2 5 2 requests no_keys ≡ 3
unfolding all_reserved reserves run_greet reserve_after greet_reserve_lua release_after
    calculate_greet_daily_ttl get_greet_quota
three_reserved = refl

requests-AllTimely : AllTimely 2 5 requests
requests-AllTimely = (
  λ _. omega arith,
  (λ _. omega arith, (λ _. omega arith, (λ _. omega arith, (λ _. omega arith, tt)))),
)

greetings_limited_example : all_reserved 2 5 2 requests no_keys ≤ 2 + all_released 2 5 requests
greetings_limited_example = greetings_limited 2 5 2 requests requests-AllTimely

-- Half a second into day 2 and so half a second before its end the key expires, and a third greeting
-- of the day is reserved.
abbrev at_midnight : List GreetCall
at_midnight =
    reserve fresh 5 172800500000
    ∷ (reserve fresh 5 172801500000 ∷ (reserve fresh 5 259199700000 ∷ []))

one_too_many : all_reserved 2 5 2 at_midnight no_keys ≡ 3
unfolding all_reserved reserves run_greet reserve_after greet_reserve_lua release_after
    calculate_greet_daily_ttl get_greet_quota
one_too_many = refl
