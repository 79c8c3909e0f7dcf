-- ===== src/Tests/Messages.antt =====
-- The theorems on paid messages, applied to a message of Ann's to Bea for 5 coins.
use new1v.Prelude.{◌≡◌, refl, true, some, []}
use mathlib.Core.Option
use new1v.Prelude.Int.{pos, ◌*ℤ◌}
use new1v.Prelude.Dict.{lookup}
use new1v.Users.{charge_coins}
use new1v.Billing.{clamp_int}
use new1v.Fee.{cents, quantize_decimal_2}
use new1v.CallApi.Dialing.{normal_user}
use new1v.ImText.{
  parse_im_text_billing_config, ImTextBillingConfig, ImTables, ImEnv, charge_im_text_message,
  charge_between, find_charge, pay_message, should_charge_im_text_message, is_user_vip,
  receiver_income, calc_im_text_certified_user_income_diamonds,
}
use new1v.ImText.Budget.{budget, charge_im_text_message-budget}
use new1v.ImText.Once.{charges_once}
use new1v.Tests.Data.{users}

abbrev five_coins : ImTextBillingConfig
five_coins = parse_im_text_billing_config true (pos 5) (pos 5000)

abbrev env : ImEnv
env = record { config = five_coins; customer_service_user_id = some 9; now = 1000 }

abbrev tables : ImTables
tables = record { users = users; records = [] }

charge_im_text_message-budget_example :
    budget 1 (charge_im_text_message env 1 2 77 tables).0 ≡ budget 1 tables
charge_im_text_message-budget_example = charge_im_text_message-budget env 1 2 77 1 tables

charges_once_example :
    (charge_im_text_message env 1 3 77 (charge_im_text_message env 1 2 77 tables).0).0
    ≡ (charge_im_text_message env 1 2 77 tables).0
unfolding parse_im_text_billing_config charge_im_text_message charge_between find_charge pay_message
    should_charge_im_text_message is_user_vip receiver_income
    calc_im_text_certified_user_income_diamonds quantize_decimal_2 cents clamp_int normal_user
    Option.bind lookup charge_coins ◌*ℤ◌
charges_once_example = charges_once env env 1 2 3 77 (pos 5) (pos 250) tables refl
