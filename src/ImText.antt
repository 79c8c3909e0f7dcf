-- ===== src/ImText.antt =====
-- backend/app/services/im_text_billing_service.py: the charge for a text message, once for each
-- request of the client. A request's key is a number here; the key of the customer service account
-- is there if that service is enabled.
pub mod Budget
pub mod Once
pub mod Income
use new1v.Prelude.{
  ℕ, Bool, true, false, not, ◌&&◌, Option, none, some, List, [], ◌∷◌, ltb, ◌==◌, if◌then◌else◌,
}
use new1v.Prelude.Int.{ℤ, pos, ltb_ℤ, max_zero, ◌*ℤ◌}
use new1v.Prelude.Dict.{lookup}
use new1v.Records.{AppUser}
use new1v.Users.{Users, charge_coins, credit_diamonds}
use new1v.Billing.{clamp_int}
use new1v.Fee.{cents, max_rate_bps, quantize_decimal_2}
use new1v.CallApi.Dialing.{normal_user}

pub record ImTextBillingConfig : Type 0 where
  pub enabled : Bool
  pub price : ℤ
  pub certified_user_share_bps : ℤ

-- Of the settings as integers.
unfoldable pub parse_im_text_billing_config : Bool → ℤ → ℤ → ImTextBillingConfig
unfolding clamp_int
parse_im_text_billing_config enabled price share = record {
  enabled = enabled;
  price = clamp_int price (pos 0) (pos 1000000);
  certified_user_share_bps = clamp_int share (pos 0) max_rate_bps;
}

-- In hundredths of a diamond.
unfoldable pub calc_im_text_certified_user_income_diamonds : ℤ → ℤ → ℤ
unfolding clamp_int
calc_im_text_certified_user_income_diamonds total_price share =
    quantize_decimal_2 (cents (max_zero total_price) *ℤ clamp_int share (pos 0) max_rate_bps)

unfoldable pub is_user_vip : ℕ → AppUser → Bool
is_user_vip now u = elim u.vip_expires_at [ some expires ↦ ltb now expires | none ↦ false ]

unfoldable pub should_charge_im_text_message :
    Bool → ℤ → (certified vip customer_service : Bool) → Bool
should_charge_im_text_message enabled price certified vip customer_service =
    enabled && (ltb_ℤ (pos 0) price && (not certified && (not vip && not customer_service)))

pub record ImTextMessageChargeRecord : Type 0 where
  pub sender_id : ℕ
  pub receiver_id : ℕ
  pub request_id : ℕ
  pub price : ℤ
  pub certified_user_share_bps : ℤ
  pub certified_user_income_diamonds : ℤ

pub record ImTables : Type 0 where
  pub users : Users
  pub records : List ImTextMessageChargeRecord

pub record ImEnv : Type 0 where
  pub config : ImTextBillingConfig
  pub customer_service_user_id : Option ℕ
  pub now : ℕ

pub data ImTextReply : Type 0 where
  charged : (price income : ℤ) → ImTextReply
  not_charged self_chat not_logged_in no_receiver insufficient_coins : ImTextReply

-- `filter(sender_id=…, request_id=…).first()`
unfoldable pub find_charge :
    ℕ → ℕ → List ImTextMessageChargeRecord → Option ImTextMessageChargeRecord
find_charge sender_id request_id [] = none
find_charge sender_id request_id (r ∷ records) =
    if (r.sender_id == sender_id) && (r.request_id == request_id)
    then some r
    else find_charge sender_id request_id records

abbrev is_customer_service : ℕ → Option ℕ → Bool
is_customer_service id none = false
is_customer_service id (some service) = id == service

unfoldable pub receiver_income : ImTextBillingConfig → AppUser → ℤ
receiver_income config receiver =
    calc_im_text_certified_user_income_diamonds
      (if receiver.is_certified_user then config.price else pos 0) config.certified_user_share_bps

abbrev pub new_charge :
    (sender_id receiver_id request_id : ℕ) → ImTextBillingConfig → ℤ → ImTextMessageChargeRecord
new_charge sender_id receiver_id request_id config income = record {
  sender_id = sender_id;
  receiver_id = receiver_id;
  request_id = request_id;
  price = config.price;
  certified_user_share_bps = config.certified_user_share_bps;
  certified_user_income_diamonds = income;
}

-- The receiver's credit and the record, after the charge has gone through.
abbrev pub book_charge :
    (sender_id receiver_id request_id : ℕ) → ImTextBillingConfig → ℤ → Users → ImTables → ImTables
book_charge sender_id receiver_id request_id config income users t = record {
  users = if ltb_ℤ (pos 0) income then credit_diamonds receiver_id income users else users;
  records = new_charge sender_id receiver_id request_id config income ∷ t.records;
}

-- The transaction.
unfoldable pub pay_message :
    (sender_id receiver_id request_id : ℕ)
    → ImTextBillingConfig
    → ℤ
    → ImTables
    → ImTables × ImTextReply
pay_message sender_id receiver_id request_id config income t =
    let (users', paid) = charge_coins sender_id (cents config.price) t.users in
    if paid
    then (
      book_charge sender_id receiver_id request_id config income users' t,
      charged config.price income,
    )
    else (t, insufficient_coins)

-- Both users are there.
unfoldable pub charge_between :
    ImEnv
    → (sender_id receiver_id request_id : ℕ) → AppUser
    → AppUser
    → ImTables
    → ImTables × ImTextReply
charge_between env sender_id receiver_id request_id sender receiver t =
    elim (find_charge sender_id request_id t.records) [
      | some r ↦ (t, charged r.price r.certified_user_income_diamonds)
      | none ↦
          if should_charge_im_text_message env.config.enabled env.config.price
            sender.is_certified_user (is_user_vip env.now sender)
            (is_customer_service receiver_id env.customer_service_user_id)
          then pay_message sender_id receiver_id request_id env.config
              (receiver_income env.config receiver) t
          else (t, not_charged)
    ]

abbrev with_users :
    Option AppUser
    → Option AppUser
    → ImEnv
    → (sender_id receiver_id request_id : ℕ) → ImTables
    → ImTables × ImTextReply
with_users none receiver env sender_id receiver_id request_id t = (t, not_logged_in)
with_users (some sender) none env sender_id receiver_id request_id t = (t, no_receiver)
with_users (some sender) (some receiver) env sender_id receiver_id request_id t =
    charge_between env sender_id receiver_id request_id sender receiver t

unfoldable pub charge_im_text_message :
    ImEnv → (sender_id receiver_id request_id : ℕ) → ImTables → ImTables × ImTextReply
charge_im_text_message env sender_id receiver_id request_id t =
    if sender_id == receiver_id
    then (t, self_chat)
    else with_users (normal_user sender_id t.users) (normal_user receiver_id t.users) env sender_id
        receiver_id request_id t
