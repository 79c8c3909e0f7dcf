-- ===== src/Tests/Gifts.antt =====
-- The theorems on gifts, applied to a gift of Ann's to Bea for 50 coins.
use new1v.Prelude.{◌≡◌, refl, true, none, some, [], ◌∷◌}
use new1v.Prelude.Int.{pos}
use new1v.Prelude.Dict.{lookup}
use new1v.Interaction.{InteractionRelationRuntime}
use new1v.Gift.{GiftTables, GiftEnv, GiftSend, chat, gift_send}
use new1v.Gift.Budget.{budget, gift_send-budget}
use new1v.Gift.Income.{Earns, gift_send-Earns}
use new1v.Tests.Data.{users}

abbrev rules : InteractionRelationRuntime
rules = record {
  rule_flags = λ action. record { opposite_gender_enabled = true; certified_mix_enabled = true };
  customer_service_user_id = none;
}

abbrev env : GiftEnv
env = record {
  gifts = (7, record { price = pos 50; is_active = true }) ∷ [];
  calls = [];
  online = λ k. true;
  blocks = [];
  runtime = rules;
  certified_user_share_bps = pos 5000;
  fee_config = record { enabled = true; threshold_coins = pos 20; rate_bps = pos 500 };
  redis_up = true;
  now = 1000;
}

abbrev request : GiftSend
request = record {
  target_user_id = 2;
  gift_id = 7;
  scene = chat;
  call_id = none;
  request_id = some 12345678;
}

abbrev tables : GiftTables
tables = record { users = users; records = []; idempotent = λ k. [] }

gift_send-budget_example : budget 1 (gift_send env 1 request tables).0 ≡ budget 1 tables
gift_send-budget_example = gift_send-budget env 1 request 1 tables

gift_send-Earns_example : Earns 2 tables (gift_send env 1 request tables).0
unfolding lookup
gift_send-Earns_example = gift_send-Earns env 1 request 2 tables refl
