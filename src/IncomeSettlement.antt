-- ===== src/IncomeSettlement.antt =====
-- `settle_call_certified_user_income_once` of backend/app/services/call_income_service.py: who
-- receives the income of a call, and the one payment of it.
pub mod Once
use new1v.Prelude.{
  ℕ, Bool, true, false, not, ◌&&◌, ◌||◌, Option, none, some, List, [], ◌∷◌, ◌==◌, ltb, is_some,
  if◌then◌else◌,
}
use new1v.Prelude.Int.{ℤ, pos, leb_ℤ, max_zero}
use new1v.Prelude.Dict.{lookup}
use new1v.Records.{AppUser, CallRecord, Income}
use new1v.Users.{Users, credit_diamonds}
use new1v.Billing.{clamp_int}
use new1v.Fee.{
  max_rate_bps, cents, calc_certified_user_income_diamonds, calc_net_call_income_diamonds,
}

-- `next(… for user in users if user.is_certified_user and user.id != payer_id)`, else 0.
unfoldable pub first_certified_other : List (ℕ × AppUser) → ℕ → ℕ
first_certified_other [] payer_id = 0
first_certified_other ((id, u) ∷ rest) payer_id =
    if u.is_certified_user && not (id == payer_id) then id else first_certified_other rest payer_id

unfoldable pub is_certified_in : List (ℕ × AppUser) → ℕ → Bool
is_certified_in [] k = false
is_certified_in ((id, u) ∷ rest) k = (u.is_certified_user && (id == k)) || is_certified_in rest k

unfoldable pub resolve_income_certified_user_id_for_call : List (ℕ × AppUser) → Option ℕ → ℕ → ℕ → ℕ
resolve_income_certified_user_id_for_call users none caller_id callee_id = 0
resolve_income_certified_user_id_for_call users (some p) caller_id callee_id =
    if not (ltb 0 p)
    then 0
    else if is_certified_in users caller_id && is_certified_in users callee_id
    then if p == caller_id then callee_id else caller_id
    else first_certified_other users p

pub record CallIncomeSettlement : Type 0 where
  pub certified_user_id : ℕ
  pub certified_user_income_diamonds : ℤ
  pub service_fee_diamonds : ℤ
  pub settled : Bool

abbrev pub no_settlement : ℕ → CallIncomeSettlement
no_settlement id = record {
  certified_user_id = id;
  certified_user_income_diamonds = pos 0;
  service_fee_diamonds = pos 0;
  settled = false;
}

abbrev pub default_share_bps : ℤ
default_share_bps = pos 5000

unfoldable pub resolve_snapshot_share_bps : Option ℤ → ℤ
unfolding clamp_int
resolve_snapshot_share_bps none = default_share_bps
resolve_snapshot_share_bps (some share) = clamp_int share (pos 0) max_rate_bps

pub record Settled : Type 0 where
  pub income : Income
  pub users : Users
  pub result : CallIncomeSettlement

abbrev pub id_or_zero : Option ℕ → ℕ
id_or_zero none = 0
id_or_zero (some id) = id

-- `id or None`
abbrev pub id_or_none : ℕ → Option ℕ
id_or_none id = if id == 0 then none else some id

-- The receiver of the income: the one on the record, else the one found among the participants.
unfoldable pub income_receiver : CallRecord → Option ℕ → Option (List (ℕ × AppUser)) → ℕ
income_receiver call payer_id none = id_or_zero call.income.income_certified_user_id
income_receiver call payer_id (some participants) =
    if ltb 0 (id_or_zero call.income.income_certified_user_id)
    then id_or_zero call.income.income_certified_user_id
    else resolve_income_certified_user_id_for_call participants payer_id call.caller_id
        call.callee_id

-- The last step, once there is a net income to pay: the receiver's row, if it is there, is credited.
unfoldable pub pay_income : Income → ℕ → ℤ → ℤ → ℤ → ℕ → Users → Settled
pay_income income receiver gross fee net now users =
    let result : CallIncomeSettlement = record {
      certified_user_id = receiver;
      certified_user_income_diamonds = gross;
      service_fee_diamonds = fee;
      settled = true;
    } in
    elim (lookup receiver users) [
      | none ↦ record { income = income; users = users; result = no_settlement receiver }
      | some u ↦ record {
        income = record income { income_settled_at = some now };
        users = credit_diamonds receiver net users;
        result = result;
      }
    ]

unfoldable pub settle_call_certified_user_income_once :
    CallRecord → ℤ → Option ℕ → Option (List (ℕ × AppUser)) → ℕ → Users → Settled
settle_call_certified_user_income_once call total_fee payer_id participants now users =
    let share = resolve_snapshot_share_bps call.income.certified_user_share_bps in
    let receiver = income_receiver call payer_id participants in
    let cleared = record call.income {
      income_certified_user_id = id_or_none receiver;
      certified_user_share_bps = some share;
      certified_user_income_diamonds = pos 0;
    } in
    let gross = calc_certified_user_income_diamonds (max_zero total_fee) share in
    let fee = call.fee.income_actual_diamonds in
    let net = calc_net_call_income_diamonds (cents gross) fee in
    let booked = record cleared { certified_user_income_diamonds = gross } in
    let nothing : Settled = record {
      income = cleared;
      users = users;
      result = no_settlement receiver;
    } in
    if is_some call.income.income_settled_at
    then record { income = call.income; users = users; result = no_settlement 0 }
    else if leb_ℤ (max_zero total_fee) (pos 0) || (receiver == 0)
    then nothing
    else if leb_ℤ gross (pos 0)
    then nothing
    else if leb_ℤ net (pos 0)
    then record {
      income = record booked { income_settled_at = some now };
      users = users;
      result = record (no_settlement receiver) {
        certified_user_income_diamonds = gross;
        service_fee_diamonds = fee;
      };
    }
    else pay_income booked receiver gross fee net now users
