-- ===== src/Gift.antt =====
-- Gifts: `gift_send` of backend/app/api/v1/app/gift.py with the share of
-- backend/app/services/gift_income_service.py. The Redis keys of a sender's requests
-- are kept with the instant at which they expire.
pub mod Outcome
pub mod Budget
pub mod Income
use new1v.Prelude.{
  ℕ, ◌+◌, ◌*◌, Bool, true, false, not, ◌&&◌, ◌||◌, Option, none, some, List, ◌∷◌, ltb, ◌==◌,
  if◌then◌else◌,
}
use new1v.Prelude.Int.{ℤ, pos, ltb_ℤ, leb_ℤ, max_zero, ◌*ℤ◌}
use new1v.Prelude.Dict.{Dict, lookup}
use new1v.Records.{AppUser, CallRecord}
use new1v.Users.{Users, charge_coins, credit_diamonds}
use new1v.Billing.{clamp_int}
use new1v.Fee.{cents, max_rate_bps, quantize_decimal_2, calc_service_fee_decimal}
use new1v.Interaction.{
  InteractionRelationRuntime, InteractionRelationError, gift, ensure_interaction_allowed,
  interaction_blocked,
}
use new1v.Database.{is_ongoing, takes_part}
use new1v.CallApi.Dialing.{normal_user}

pub record Gift : Type 0 where
  pub price : ℤ
  pub is_active : Bool

pub data FeeStatus : Type 0 where
  charged skipped_insufficient : FeeStatus

-- Prices are whole coins; income and fees are in hundredths.
pub record GiftRecord : Type 0 where
  pub sender_id : ℕ
  pub receiver_id : ℕ
  pub gift_id : ℕ
  pub price : ℤ
  pub total_price : ℤ
  pub certified_user_share_bps : ℤ
  pub certified_user_income_diamonds : ℤ
  pub service_fee_threshold_coins : ℤ
  pub service_fee_rate_bps : ℤ
  pub service_fee_sender_expected_coins : ℤ
  pub service_fee_sender_actual_coins : ℤ
  pub service_fee_sender_status : Option FeeStatus

pub record GiftTables : Type 0 where
  pub users : Users
  pub records : List GiftRecord
  pub idempotent : ℕ → Dict ℕ

pub record GiftServiceFeeConfig : Type 0 where
  pub enabled : Bool
  pub threshold_coins : ℤ
  pub rate_bps : ℤ

-- What the handler reads besides.
pub record GiftEnv : Type 0 where
  pub gifts : Dict Gift
  pub calls : Dict CallRecord
  pub online : ℕ → Bool
  pub blocks : List (ℕ × ℕ)
  pub runtime : InteractionRelationRuntime
  pub certified_user_share_bps : ℤ
  pub fee_config : GiftServiceFeeConfig
  pub redis_up : Bool
  pub now : ℕ

pub data GiftScene : Type 0 where
  chat call_scene : GiftScene

-- A quantity other than one is refused by the form.
pub record GiftSend : Type 0 where
  pub target_user_id : ℕ
  pub gift_id : ℕ
  pub scene : GiftScene
  pub call_id : Option ℕ
  pub request_id : Option ℕ

pub data GiftReply : Type 0 where
  sent no_gift bad_target no_target bad_call offline bad_login blocked bad_price : GiftReply
  too_frequent insufficient_coins : GiftReply
  not_allowed : InteractionRelationError → GiftReply

-- In hundredths of a diamond.
unfoldable pub calc_gift_certified_user_income_diamonds : ℤ → ℤ → ℤ
unfolding clamp_int
calc_gift_certified_user_income_diamonds total_price share =
    quantize_decimal_2 (cents (max_zero total_price) *ℤ clamp_int share (pos 0) max_rate_bps)

unfoldable pub calc_gift_service_fee : ℤ → ℤ → ℤ
calc_gift_service_fee unit_price rate_bps =
    calc_service_fee_decimal (cents (max_zero unit_price)) rate_bps

abbrev both_in : ℕ → ℕ → Option CallRecord → Bool
both_in sender_id target_id none = false
both_in sender_id target_id (some c) =
    is_ongoing c.status && (takes_part sender_id c && takes_part target_id c)

unfoldable pub validate_call_scene : Option ℕ → ℕ → ℕ → Dict CallRecord → Bool
validate_call_scene none sender_id target_id calls = false
validate_call_scene (some id) sender_id target_id calls =
    ltb 0 id && both_in sender_id target_id (lookup id calls)

abbrev pub gift_income : GiftEnv → AppUser → ℤ → ℤ
gift_income env target total_price =
    calc_gift_certified_user_income_diamonds
      (if target.is_certified_user then total_price else pos 0) env.certified_user_share_bps

abbrev takes_fee : GiftServiceFeeConfig → ℤ → Bool
takes_fee config price =
    config.enabled && (ltb_ℤ (pos 0) config.rate_bps && ltb_ℤ config.threshold_coins price)

-- What was found out of the fee: what was due, what was taken, and how that went.
pub record FeeTaken : Type 0 where
  pub threshold : ℤ
  pub rate : ℤ
  pub expected : ℤ
  pub actual : ℤ
  pub status : Option FeeStatus
  pub users : Users

abbrev pub no_fee : Users → FeeTaken
no_fee users = record {
  threshold = pos 0;
  rate = pos 0;
  expected = pos 0;
  actual = pos 0;
  status = none;
  users = users;
}

unfoldable pub try_fee : ℕ → GiftServiceFeeConfig → ℤ → Users → FeeTaken
try_fee sender_id config expected users =
    let (users', paid) = charge_coins sender_id expected users in
    record {
      threshold = config.threshold_coins;
      rate = config.rate_bps;
      expected = expected;
      actual = if paid then expected else pos 0;
      status = some (if paid then charged else skipped_insufficient);
      users = users';
    }

unfoldable pub take_fee : ℕ → GiftServiceFeeConfig → ℤ → Users → FeeTaken
take_fee sender_id config price users =
    let expected = calc_gift_service_fee price config.rate_bps in
    if not (takes_fee config price)
    then no_fee users
    else if ltb_ℤ (pos 0) expected
    then try_fee sender_id config expected users
    else record (no_fee users) {
      threshold = config.threshold_coins;
      rate = config.rate_bps;
      expected = expected;
    }

abbrev pub new_record :
    (sender_id target_id gift_id : ℕ) → (price share income : ℤ) → FeeTaken → GiftRecord
new_record sender_id target_id gift_id price share income fee = record {
  sender_id = sender_id;
  receiver_id = target_id;
  gift_id = gift_id;
  price = price;
  total_price = price;
  certified_user_share_bps = share;
  certified_user_income_diamonds = income;
  service_fee_threshold_coins = fee.threshold;
  service_fee_rate_bps = fee.rate;
  service_fee_sender_expected_coins = fee.expected;
  service_fee_sender_actual_coins = fee.actual;
  service_fee_sender_status = fee.status;
}

abbrev pub credit_income : ℕ → ℤ → Users → Users
credit_income target_id income users =
    if ltb_ℤ (pos 0) income then credit_diamonds target_id income users else users

-- The transaction past the charge: the receiver's income, the fee and the record.
unfoldable pub book_gift :
    (sender_id target_id gift_id : ℕ)
    → (price share income : ℤ) → GiftServiceFeeConfig
    → Users
    → GiftTables
    → GiftTables
book_gift sender_id target_id gift_id price share income config users t =
    let fee = take_fee sender_id config price (credit_income target_id income users) in
    record t {
      users = fee.users;
      records = new_record sender_id target_id gift_id price share income fee ∷ t.records;
    }

unfoldable pub pay_gift :
    (sender_id target_id gift_id : ℕ)
    → (price share income : ℤ) → GiftServiceFeeConfig
    → GiftTables
    → GiftTables × GiftReply
pay_gift sender_id target_id gift_id price share income config t =
    let (users', paid) = charge_coins sender_id (cents price) t.users in
    if paid
    then (book_gift sender_id target_id gift_id price share income config users' t, sent)
    else (t, insufficient_coins)

abbrev gift_ttl : ℕ
gift_ttl = 120 * 1000000

abbrev live_key : ℕ → Option ℕ → Bool
live_key now none = false
live_key now (some expires) = ltb now expires

-- The key of a request is one of its sender's.
abbrev request_held : GiftEnv → ℕ → Option ℕ → GiftTables → Bool
request_held env sender_id none t = false
request_held env sender_id (some request) t =
    env.redis_up && live_key env.now (lookup request (t.idempotent sender_id))

abbrev pub hold_key : ℕ → ℕ → ℕ → GiftTables → GiftTables
hold_key sender_id request expires t = record t {
  idempotent = λ k. if k == sender_id then (request, expires) ∷ t.idempotent k else t.idempotent k;
}

abbrev pub hold_request : GiftEnv → ℕ → Option ℕ → GiftTables → GiftTables
hold_request env sender_id none t = t
hold_request env sender_id (some request) t =
    if env.redis_up then hold_key sender_id request (env.now + gift_ttl) t else t

-- Everything is checked: the balance that was read is compared before the transaction is entered.
unfoldable pub send_checked :
    GiftEnv
    → (sender_id : ℕ) → AppUser
    → AppUser
    → GiftSend
    → Gift
    → GiftTables
    → GiftTables × GiftReply
send_checked env sender_id sender target req g t =
    if leb_ℤ g.price (pos 0)
    then (t, bad_price)
    else if request_held env sender_id req.request_id t
    then (t, too_frequent)
    else if ltb_ℤ sender.coins (cents g.price)
    then (hold_request env sender_id req.request_id t, insufficient_coins)
    else pay_gift sender_id req.target_user_id req.gift_id g.price env.certified_user_share_bps
        (gift_income env target g.price) env.fee_config
        (hold_request env sender_id req.request_id t)

abbrev pub if_allowed :
    Option InteractionRelationError
    → GiftEnv
    → (sender_id : ℕ) → AppUser
    → AppUser
    → GiftSend
    → Gift
    → GiftTables
    → GiftTables × GiftReply
if_allowed (some e) env sender_id sender target req g t = (t, not_allowed e)
if_allowed none env sender_id sender target req g t =
    send_checked env sender_id sender target req g t

unfoldable pub send_between :
    GiftEnv
    → (sender_id : ℕ) → AppUser
    → AppUser
    → GiftSend
    → Gift
    → GiftTables
    → GiftTables × GiftReply
send_between env sender_id sender target req g t =
    if interaction_blocked sender_id req.target_user_id env.blocks
    then (t, blocked)
    else if_allowed
        (ensure_interaction_allowed gift sender_id sender req.target_user_id target false
          env.runtime)
        env sender_id sender target req g t

abbrev scene_error : GiftEnv → ℕ → GiftSend → Option GiftReply
scene_error env sender_id req = elim req.scene [
  | chat ↦ none
  | call_scene ↦
      if not (validate_call_scene req.call_id sender_id req.target_user_id env.calls)
      then some bad_call
      else if env.online req.target_user_id
      then none
      else some offline
]

abbrev pub from_sender :
    Option AppUser → GiftEnv → ℕ → AppUser → GiftSend → Gift → GiftTables → GiftTables × GiftReply
from_sender none env sender_id target req g t = (t, bad_login)
from_sender (some sender) env sender_id target req g t =
    send_between env sender_id sender target req g t

abbrev pub in_scene :
    Option GiftReply → GiftEnv → ℕ → AppUser → GiftSend → Gift → GiftTables → GiftTables × GiftReply
in_scene (some e) env sender_id target req g t = (t, e)
in_scene none env sender_id target req g t =
    from_sender (normal_user sender_id t.users) env sender_id target req g t

abbrev pub to_target :
    Option AppUser → GiftEnv → ℕ → GiftSend → Gift → GiftTables → GiftTables × GiftReply
to_target none env sender_id req g t = (t, no_target)
to_target (some target) env sender_id req g t =
    in_scene (scene_error env sender_id req) env sender_id target req g t

abbrev pub of_gift : Option Gift → GiftEnv → ℕ → GiftSend → GiftTables → GiftTables × GiftReply
of_gift none env sender_id req t = (t, no_gift)
of_gift (some g) env sender_id req t =
    if not g.is_active
    then (t, no_gift)
    else if req.target_user_id == 0
    then (t, bad_target)
    else to_target (normal_user req.target_user_id t.users) env sender_id req g t

unfoldable pub gift_send : GiftEnv → ℕ → GiftSend → GiftTables → GiftTables × GiftReply
gift_send env sender_id req t = of_gift (lookup req.gift_id env.gifts) env sender_id req t
