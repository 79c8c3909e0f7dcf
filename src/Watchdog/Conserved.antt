-- ===== src/Watchdog/Conserved.antt =====
-- A pass of the watchdog over a call: whatever leaves the payer's balance is booked on the call, as
-- call fee or as service fee, and the other way round.
use new1v.Prelude.{ap, ℕ, ◌<◌, ◌≡◌, refl, Bool, Option, some, List, arith}
use new1v.Prelude.Int.{ℤ, pos, ◌+ℤ◌, ◌-ℤ◌, ◌≤ℤ◌, int_eqs}
use new1v.Prelude.Dict.{lookup}
use new1v.Records.{AppUser, CallRecord, ServiceFee}
use new1v.Users.{Users}
use new1v.Users.Balance.{Pays, Spends, Pays-Spends, Spends-trans, Spends-eq}
use new1v.Fee.{cents}
use new1v.Fee.Rounding.{cents_parts}
use new1v.FeeAdjustment.{Payer, apply_call_service_fee_final_adjustment}
use new1v.FeeAdjustment.Conserved.{Holds, fee_adjustment_conserves}
use new1v.IncomeSettlement.Once.{settlement-Credits}
use new1v.Watchdog.Finish.{Outcome, finish_call, fill_income_receiver}

-- What the payer has paid for a call, in hundredths.
abbrev pub paid_for : CallRecord → ℤ
paid_for call = cents call.deducted_amount +ℤ call.fee.payer_actual_coins

finish_keeps_deducted :
    (call : CallRecord) (payer_id : Option ℕ) (payer : Option Payer) (total : ℤ)
    (participants : Option (List (ℕ × AppUser))) (now : ℕ) (us : Users) (charged : List ℕ)
    → (finish_call call payer_id payer total participants now us charged).call.deducted_amount
      ≡ call.deducted_amount
unfolding finish_call apply_call_service_fee_final_adjustment
finish_keeps_deducted call payer_id payer total participants now us charged = refl

pub fill_keeps :
    (certified : ℕ → Bool) (payer_id : Option ℕ) (call : CallRecord)
    → ((fill_income_receiver certified payer_id call).fee ≡ call.fee)
      × ((fill_income_receiver certified payer_id call).deducted_amount ≡ call.deducted_amount)
unfolding fill_income_receiver
fill_keeps certified payer_id call = ground arith

module _ (p : ℕ) (us : Users) (u : AppUser) (there : lookup p us ≡ some u) (key : 0 < p) where
  finish_call-Spends :
      (call : CallRecord) (payer : Option Payer) (total : ℤ)
      (participants : Option (List (ℕ × AppUser))) (now : ℕ) (charged : List ℕ)
      → Holds p u payer
      → pos 0 ≤ℤ call.fee.payer_actual_coins
      → let o = finish_call call (some p) payer total participants now us charged in
        Spends p (o.call.fee.payer_actual_coins -ℤ call.fee.payer_actual_coins) us o.users
        × (pos 0 ≤ℤ o.call.fee.payer_actual_coins)
        × (o.call.fee.payer_actual_coins ≤ℤ o.call.fee.payer_expected_coins)
  unfolding finish_call
  finish_call-Spends call payer total participants now charged held nonneg =
      let r = apply_call_service_fee_final_adjustment call (some p) payer now us in
      let (s, low, high) = fee_adjustment_conserves p call payer now us u key there held nonneg in
      let c = settlement-Credits r.call total (some p) participants now r.users in
      (Pays-Spends s c.same_coins, low, high)

-- A pass over `call` that spends on the call what the payer loses.
pub record Conserves (p : ℕ) (call : CallRecord) (us : Users) (o : Outcome) : Type 0 where
  pub spent : Spends p (paid_for o.call -ℤ paid_for call) us o.users
  pub fee_nonneg : pos 0 ≤ℤ o.call.fee.payer_actual_coins

ruleset money = (int_eqs, cents_parts)

module _ (p : ℕ) (key : 0 < p) where
  -- The rest of an ending, after a bill that made up the change of the deducted amount.
  pub ending-Conserves :
      (call call' : CallRecord) (payer : Option Payer) (total : ℤ)
      (participants : Option (List (ℕ × AppUser))) (now : ℕ) (us vs : Users) (v : AppUser)
      (charged : List ℕ)
      → lookup p vs ≡ some v
      → Holds p v payer
      → Pays p (cents call'.deducted_amount -ℤ cents call.deducted_amount) us vs
      → call'.fee ≡ call.fee
      → pos 0 ≤ℤ call.fee.payer_actual_coins
      → Conserves p call us (finish_call call' (some p) payer total participants now vs charged)
  ending-Conserves call call' payer total participants now us vs v charged there held bill same
        nonneg =
      let o = finish_call call' (some p) payer total participants now vs charged in
      let fee = ap (λ (f : ServiceFee). f.payer_actual_coins) same in
      let (s, low, high) =
        finish_call-Spends p vs v there key call' payer total participants now charged held
          (omega (int_eqs, fee, nonneg)) in
      let d = finish_keeps_deducted call' (some p) payer total participants now vs charged in
      record {
        spent = Spends-eq (omega (int_eqs, cents_parts, fee, d)) (Spends-trans bill s);
        fee_nonneg = low;
      }
