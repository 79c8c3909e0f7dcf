-- ===== src/Watchdog/Config.antt =====
-- `_load_watchdog_config` of backend/app/core/call_watchdog.py. The stored settings are taken as
-- the integers that `safe_parse_int` makes of them.
use new1v.Prelude.{ℕ, ◌≤◌, arith}
use new1v.Prelude.Int.{ℤ, pos, pos_part}
use new1v.Billing.{clamp_int}

pub record WatchdogConfig : Type 0 where
  pub poll_seconds : ℕ
  pub ring_timeout_seconds : ℕ
  pub renew_grace_seconds : ℕ
  pub free_seconds_before_billing : ℕ
  pub presence_offline_detect_seconds : ℕ
  pub presence_settle_grace_seconds : ℕ

unfoldable clamp_seconds : ℤ → ℕ
unfolding clamp_int
clamp_seconds value = pos_part (clamp_int value (pos 1) (pos 600))

unfoldable clamp_renew_grace_seconds : ℤ → ℕ
unfolding clamp_int
clamp_renew_grace_seconds value = pos_part (clamp_int value (pos 0) (pos 5))

unfoldable clamp_presence_settle_grace_seconds : ℤ → ℕ
unfolding clamp_int
clamp_presence_settle_grace_seconds value = pos_part (clamp_int value (pos 0) (pos 30))

unfoldable pub load_watchdog_config : (poll ring grace free detect settle : ℤ) → WatchdogConfig
unfolding clamp_seconds clamp_renew_grace_seconds clamp_presence_settle_grace_seconds
load_watchdog_config poll ring grace free detect settle = record {
  poll_seconds = clamp_seconds poll;
  ring_timeout_seconds = clamp_seconds ring;
  renew_grace_seconds = clamp_renew_grace_seconds grace;
  free_seconds_before_billing = pos_part free;
  presence_offline_detect_seconds = clamp_seconds detect;
  presence_settle_grace_seconds = clamp_presence_settle_grace_seconds settle;
}

-- Whatever the settings hold, the loop sleeps and a call rings between one second and ten minutes,
-- a heartbeat stays good for at least one second, and the two graces are at most 5 and 30 seconds.
pub load_watchdog_config_bounds :
    (poll ring grace free detect settle : ℤ)
    → let c = load_watchdog_config poll ring grace free detect settle in
      (1 ≤ c.poll_seconds)
      × (c.poll_seconds ≤ 600)
      × (1 ≤ c.ring_timeout_seconds)
      × (c.ring_timeout_seconds ≤ 600)
      × (c.renew_grace_seconds ≤ 5)
      × (1 ≤ c.presence_offline_detect_seconds)
      × (c.presence_settle_grace_seconds ≤ 30)
unfolding load_watchdog_config
load_watchdog_config_bounds poll ring grace free detect settle = ground arith
