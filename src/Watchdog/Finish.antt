-- ===== src/Watchdog/Finish.antt =====
-- What every way of ending a running call shares: the difference between the fee due and what was
-- taken, the receiver of the income, the service fee, and the income.
use new1v.Prelude.{
  ℕ, Bool, true, false, not, ◌&&◌, ◌||◌, Option, none, some, List, [], ◌∷◌, ◌++◌, ltb, ◌==◌,
  if◌then◌else◌,
}
use new1v.Prelude.Int.{ℤ, pos, pos_part, ltb_ℤ, ◌+ℤ◌, ◌-ℤ◌, ◌//ℤ◌}
use new1v.Records.{AppUser, CallRecord}
use new1v.Users.{Users, charge_coins, credit_coins}
use new1v.Fee.{cents}
use new1v.FeeAdjustment.{Payer, apply_call_service_fee_final_adjustment, is_payer}
use new1v.IncomeSettlement.{
  CallIncomeSettlement, settle_call_certified_user_income_once, id_or_zero, id_or_none,
}

-- The call after a pass, whether it ended, and whose balances are to be pushed: the payer for each
-- charge or refund, and the receiver of the income.
pub record Outcome : Type 0 where
  pub call : CallRecord
  pub users : Users
  pub has_ended : Bool
  pub charged : List ℕ
  pub income_pushes : List ℕ

-- `charged_amount` after the top-up or the refund, and whether either happened; `short` is a top-up
-- that the payer could not pay.
pub record Billed : Type 0 where
  pub users : Users
  pub charged_amount : ℤ
  pub changed : Bool
  pub short : Bool

abbrev unchanged_bill : ℤ → Users → Billed
unchanged_bill base users = record {
  users = users;
  charged_amount = base;
  changed = false;
  short = false;
}

-- The top-up of what is due beyond `deducted`, as one conditional update.
unfoldable pub top_up : ℕ → ℤ → ℤ → Users → Billed
top_up p amount base users =
    let (users', paid) = charge_coins p (cents amount) users in
    if paid
    then record { users = users'; charged_amount = base +ℤ amount; changed = true; short = false }
    else record { users = users'; charged_amount = base; changed = false; short = true }

unfoldable pub refund : ℕ → ℤ → ℤ → Users → Billed
refund p amount base users = record {
  users = credit_coins p (cents amount) users;
  charged_amount = base -ℤ amount;
  changed = true;
  short = false;
}

unfoldable pub bill_payer : ℕ → ℤ → ℤ → ℤ → Users → Billed
bill_payer p actual_fee deducted base users =
    if ltb_ℤ deducted actual_fee
    then top_up p (actual_fee -ℤ deducted) base users
    else if ltb_ℤ actual_fee deducted
    then refund p (deducted -ℤ actual_fee) base users
    else unchanged_bill base users

-- With no payer nothing is billed.
unfoldable pub bill_difference : Option ℕ → ℤ → ℤ → ℤ → Users → Billed
bill_difference none actual_fee deducted base users = unchanged_bill base users
bill_difference (some p) actual_fee deducted base users =
    if ltb 0 p then bill_payer p actual_fee deducted base users else unchanged_bill base users

-- `charged_amount // call_price`, or the minutes due where nobody pays or the call is free.
unfoldable pub settled_minutes : Option ℕ → ℤ → ℤ → ℕ → ℤ
settled_minutes payer_id call_price charged_amount due_minutes =
    if is_payer payer_id && ltb_ℤ (pos 0) call_price
    then charged_amount //ℤ pos_part call_price
    else pos due_minutes

-- `_resolve_income_certified_user_id_for_call`, with the set of certified users as a test.
unfoldable pub resolve_income_certified_user_id : (ℕ → Bool) → ℕ → ℕ → Option ℕ → ℕ
resolve_income_certified_user_id certified caller_id callee_id none = 0
resolve_income_certified_user_id certified caller_id callee_id (some p) =
    if not (ltb 0 p)
    then 0
    else if certified caller_id && certified callee_id
    then if p == caller_id then callee_id else caller_id
    else if certified caller_id && not (caller_id == p)
    then caller_id
    else if certified callee_id && not (callee_id == p)
    then callee_id
    else 0

-- `if not call_record.income_certified_user_id: …`
unfoldable pub fill_income_receiver : (ℕ → Bool) → Option ℕ → CallRecord → CallRecord
fill_income_receiver certified payer_id call =
    let found = resolve_income_certified_user_id certified call.caller_id call.callee_id payer_id in
    if id_or_zero call.income.income_certified_user_id == 0
    then record call { income = record call.income { income_certified_user_id = id_or_none found } }
    else call

abbrev is_member : ℕ → List ℕ → Bool
is_member k [] = false
is_member k (x ∷ xs) = (x == k) || is_member k xs

unfoldable pub push_payer : Bool → Option ℕ → List ℕ → List ℕ
push_payer changed none charged = charged
push_payer changed (some p) charged =
    if changed && not (is_member p charged) then charged ++ (p ∷ []) else charged

unfoldable pub push_income : CallIncomeSettlement → List ℕ
push_income s = if s.settled && ltb 0 s.certified_user_id then s.certified_user_id ∷ [] else []

-- The service fee and the income of a call whose ending is written on it, and the save.
unfoldable pub finish_call :
    CallRecord
    → Option ℕ
    → Option Payer
    → ℤ
    → Option (List (ℕ × AppUser))
    → ℕ
    → Users
    → List ℕ
    → Outcome
finish_call call payer_id payer total_fee participants now users charged =
    let adjusted = apply_call_service_fee_final_adjustment call payer_id payer now users in
    let settled =
      settle_call_certified_user_income_once adjusted.call total_fee payer_id participants now
        adjusted.users in
    record {
      call = record adjusted.call { income = settled.income; updated_at = now };
      users = settled.users;
      has_ended = true;
      charged = push_payer (adjusted.result.payer_balance_changed) payer_id charged;
      income_pushes = push_income settled.result;
    }
