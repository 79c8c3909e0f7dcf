-- ===== src/Tests/Data.antt =====
-- Ann, who pays; Bea, who is certified and costs 100 coins a minute; and a call of theirs.
use new1v.Prelude.{ℕ, Bool, true, false, none, some, [], ◌∷◌, ◌==◌}
use new1v.Prelude.Int.{pos}
use new1v.Records.{AppUser, normal, female, male, CallRecord, ongoing, ServiceFee}
use new1v.Users.{Users}
use new1v.Presence.{CallPresence}
use new1v.Watchdog.Config.{WatchdogConfig}
use new1v.Interaction.{InteractionRelationRuntime}
use new1v.CallApi.Dialing.{DialEnv}
use new1v.CallApi.Answer.{AnswerEnv}

abbrev pub ann : AppUser
ann = record {
  status = normal;
  gender = male;
  is_certified_user = false;
  certified_call_price = pos 0;
  coins = pos 25000;
  diamonds = pos 0;
  frozen_diamonds = pos 0;
  video_dnd_enabled = false;
  vip_expires_at = none;
}

abbrev pub bea : AppUser
bea = record {
  status = normal;
  gender = female;
  is_certified_user = true;
  certified_call_price = pos 100;
  coins = pos 0;
  diamonds = pos 0;
  frozen_diamonds = pos 0;
  video_dnd_enabled = false;
  vip_expires_at = none;
}

abbrev pub users : Users
users = (1, ann) ∷ (2, bea) ∷ []

abbrev pub certified : ℕ → Bool
certified k = k == 2

-- Ten per cent from the payer beyond the first minute, five from the income.
abbrev pub fee : ServiceFee
fee = record {
  threshold_minutes = pos 1;
  rate_bps = pos 1000;
  payer_rate_bps = pos 1000;
  income_rate_bps = pos 500;
  processed_chargeable_minutes = pos 0;
  payer_expected_coins = pos 0;
  payer_actual_coins = pos 0;
  payer_status = none;
  payer_settled_at = none;
  income_expected_diamonds = pos 0;
  income_actual_diamonds = pos 0;
  income_status = none;
  income_settled_at = none;
}

-- Connected at second 1000, nothing charged yet.
abbrev pub running : CallRecord
running = record {
  caller_id = 1;
  callee_id = 2;
  call_price = pos 100;
  status = ongoing;
  duration = 0;
  total_fee = pos 0;
  end_reason = none;
  connected_at = some 1000000000;
  ended_at = none;
  effective_ended_at = none;
  end_basis = none;
  force_exit_user_id = none;
  deducted_amount = pos 0;
  deducted_minutes = pos 0;
  last_renew_at = none;
  billing_free_seconds = some (pos 10);
  payer_user_id = some 1;
  created_at = 990000000;
  updated_at = 1000000000;
  income = record {
    income_certified_user_id = some 2;
    certified_user_share_bps = some (pos 5000);
    certified_user_income_diamonds = pos 0;
    income_settled_at = none;
  };
  fee = fee;
}

abbrev pub presence : CallPresence
presence = record {
  caller_last_seen_ms = some 1085000;
  callee_last_seen_ms = some 1084000;
  caller_left_candidate_ms = none;
  callee_left_candidate_ms = none;
}

abbrev pub config : WatchdogConfig
config = record {
  poll_seconds = 5;
  ring_timeout_seconds = 30;
  renew_grace_seconds = 2;
  free_seconds_before_billing = 10;
  presence_offline_detect_seconds = 15;
  presence_settle_grace_seconds = 5;
}

abbrev pub runtime : InteractionRelationRuntime
runtime = record {
  rule_flags = λ _. record { opposite_gender_enabled = true; certified_mix_enabled = true };
  customer_service_user_id = some 9;
}

abbrev pub dial_env : DialEnv
dial_env = record {
  online = λ _. true;
  blocks = [];
  runtime = runtime;
  inbound_protect_seconds = 60;
  pair_protect_seconds = 300;
  certified_user_share_bps = pos 5000;
  now = 990000000;
}

abbrev pub answer_env : AnswerEnv
answer_env = record {
  billing_free_seconds = pos 10;
  service_fee = record {
    enabled = true;
    threshold_minutes = pos 1;
    payer_rate_bps = pos 1000;
    income_rate_bps = pos 500;
  };
  now = 1000000000;
}
