-- ===== src/Watchdog/Pass.antt =====
-- The money theorem of the watchdog: a pass over a running call conserves coins, on every branch.
use new1v.Prelude.{
  ℕ, ◌*◌, ◌<◌, ◌≡◌, inl, inr, refl, ◌∙◌, Bool, Option, none, some, if-both, List, [],
}
use new1v.Prelude.Int.{ℤ, pos, ◌+ℤ◌, ◌-ℤ◌, ◌≤ℤ◌, ◌*ℤ◌, int_laws, int_eqs}
use new1v.Prelude.Dict.{lookup}
use new1v.Records.{AppUser, CallRecord, CallStatus, pending, ongoing, ended}
use new1v.Users.{Users}
use new1v.Users.Balance.{
  Pays, Pays-refl, Pays-eq, Pays-trans, Pays-row, Pays-Spends, charge_coins_lem,
}
use new1v.Billing.{calc_due_minutes}
use new1v.Fee.{cents}
use new1v.Fee.Rounding.{cents_parts}
use new1v.FeeAdjustment.{Payer}
use new1v.FeeAdjustment.Conserved.{Holds}
use new1v.Presence.{CallPresence, ForcedEnd}
use new1v.Watchdog.Config.{WatchdogConfig}
use new1v.Watchdog.Finish.{finish_call, fill_income_receiver, bill_difference}
use new1v.Watchdog.Bill.{bill_difference-Pays}
use new1v.Watchdog.Incremental.Paid.{incremental-PaysFee}
use new1v.Watchdog.Conserved.{Conserves, ending-Conserves, fill_keeps}
use new1v.Watchdog.{
  connected_since, watchdog_payer_id, unchanged, force_exit_call, balance_empty_call, charge_call,
  try_charge, renew_call, bill_call, act_on, process_by_state, process_connected, process_call,
}

module _ (p : ℕ) (key : 0 < p) (certified : ℕ → Bool) where
  -- An ending whose receiver of income is filled in first.
  filled-Conserves :
      (call call' : CallRecord) (payer : Option Payer) (total : ℤ) (now : ℕ) (us vs : Users)
      (v : AppUser) (charged : List ℕ)
      → lookup p vs ≡ some v
      → Holds p v payer
      → Pays p (cents call'.deducted_amount -ℤ cents call.deducted_amount) us vs
      → call'.fee ≡ call.fee
      → pos 0 ≤ℤ call.fee.payer_actual_coins
      → Conserves p call us (
          finish_call
            (fill_income_receiver certified (some p) call')
            (some p)
            payer
            total
            none
            now
            vs
            charged)
  filled-Conserves call call' payer total now us vs v charged there held bill same nonneg =
      let (fee, amount) = fill_keeps certified (some p) call' in
      ending-Conserves p key call (fill_income_receiver certified (some p) call') payer total none
        now us vs v charged there held (Pays-eq (omega (int_eqs, cents_parts, amount)) bill)
        (fee ∙ same) nonneg

  module _ (us : Users) (u : AppUser) (there : lookup p us ≡ some u) where
    balance_empty-Conserves :
        (payer : Option Payer) (duration now : ℕ) (call : CallRecord)
        → Holds p u payer
        → pos 0 ≤ℤ call.fee.payer_actual_coins
        → Conserves p call us (balance_empty_call certified p payer duration now call us)
    unfolding balance_empty_call
    balance_empty-Conserves payer duration now call held nonneg =
        filled-Conserves call _ payer _ now us us u [] there held
          (Pays-eq (omega int_laws) (Pays-refl p us)) refl nonneg

    force_exit-Conserves :
        (free : ℕ) (e : ForcedEnd) (connected now : ℕ) (call : CallRecord)
        → watchdog_payer_id certified call ≡ some p
        → pos 0 ≤ℤ call.fee.payer_actual_coins
        → Conserves p call us (force_exit_call free certified e connected now call us)
    unfolding force_exit_call
    force_exit-Conserves free e connected now call who nonneg =
        let due =
          calc_due_minutes (connected_since (e.effective_ended_at_ms * 1000) connected) free in
        let b =
          bill_difference (some p) (pos due *ℤ call.call_price) call.deducted_amount
            call.deducted_amount us in
        let paid =
          bill_difference-Pays p us u there key (pos due *ℤ call.call_price) call.deducted_amount
            call.deducted_amount in
        let (v, there', _) = Pays-row u paid there in
        rw who (
          filled-Conserves call _ none b.charged_amount now us b.users v _ there' tt paid refl
            nonneg)

    charge_call-Conserves :
        (charge_amount : ℤ) (due now : ℕ) (call : CallRecord) (vs : Users)
        → Pays p (cents charge_amount) us vs
        → pos 0 ≤ℤ call.fee.payer_actual_coins
        → Conserves p call us (charge_call p u.coins charge_amount due now call vs)
    unfolding charge_call
    charge_call-Conserves charge_amount due now call vs s nonneg =
        let (v, there', c) = Pays-row u s there in
        let payer : Payer = record { id = p; coins = u.coins -ℤ cents charge_amount } in
        let call' = record call {
          deducted_minutes = pos due;
          deducted_amount = call.deducted_amount +ℤ charge_amount;
          last_renew_at = some now;
        } in
        let fee = incremental-PaysFee p vs v there' call' payer now refl (omega (int_eqs, c)) in
        record {
          spent =
              Pays-Spends (Pays-eq (omega (int_eqs, cents_parts)) (Pays-trans s fee.paid))
                (λ j. refl);
          fee_nonneg = fee.nonneg nonneg;
        }

    unchanged-Conserves :
        (call : CallRecord)
        → pos 0 ≤ℤ call.fee.payer_actual_coins
        → Conserves p call us (unchanged call us)
    unchanged-Conserves call nonneg = record {
      spent = Pays-Spends (Pays-eq (omega int_laws) (Pays-refl p us)) (λ j. refl);
      fee_nonneg = nonneg;
    }

    try_charge-Conserves :
        (charge_amount : ℤ) (due duration now : ℕ) (call : CallRecord)
        → pos 0 ≤ℤ call.fee.payer_actual_coins
        → Conserves p call us (try_charge certified p u charge_amount due duration now call us)
    unfolding try_charge
    try_charge-Conserves charge_amount due duration now call nonneg =
        elim (charge_coins_lem p (cents charge_amount) us u there) [
          | inl (paid, _, s) ↦ rw paid (charge_call-Conserves charge_amount due now call _ s nonneg)
          | inr (same, _) ↦ rw same (balance_empty-Conserves none duration now call tt nonneg)
        ]

    renew-Conserves :
        (due duration now : ℕ) (call : CallRecord)
        → pos 0 ≤ℤ call.fee.payer_actual_coins
        → Conserves p call us (renew_call certified p due duration now call us)
    unfolding renew_call
    renew-Conserves due duration now call nonneg =
        rw (there, renew_call)
          (if-both (Conserves p call us) _
            (balance_empty_call certified p (some (record { id = p; coins = u.coins })) duration now
              call us)
            _ (balance_empty-Conserves _ duration now call (refl, refl) nonneg)
            (try_charge-Conserves _ due duration now call nonneg))

    bill-Conserves :
        (config : WatchdogConfig) (free connected now : ℕ) (call : CallRecord)
        → watchdog_payer_id certified call ≡ some p
        → pos 0 ≤ℤ call.fee.payer_actual_coins
        → Conserves p call us (bill_call config free certified connected now call us)
    unfolding bill_call
    bill-Conserves config free connected now call who nonneg =
        rw (who, bill_call)
          (if-both (Conserves p call us) _ (unchanged call us) _ (unchanged-Conserves call nonneg) (
            if-both (Conserves p call us) _ (unchanged call us) _ (unchanged-Conserves call nonneg)
              (renew-Conserves _ _ now call nonneg)))

module _ (p : ℕ) (config : WatchdogConfig) (certified : ℕ → Bool) (now : ℕ) (call : CallRecord)
    (us : Users) (u : AppUser) (key : 0 < p) (there : lookup p us ≡ some u)
    (who : watchdog_payer_id certified call ≡ some p)
    (nonneg : pos 0 ≤ℤ call.fee.payer_actual_coins) where
  act_on-Conserves :
      (d : Option ForcedEnd) (free connected : ℕ)
      → Conserves p call us (act_on d config free certified connected now call us)
  unfolding act_on
  act_on-Conserves none free connected =
      bill-Conserves p key certified us u there config free connected now call who nonneg
  act_on-Conserves (some e) free connected =
      force_exit-Conserves p key certified us u there free e connected now call who nonneg

  by_state-Conserves :
      (status : CallStatus) (connected : Option ℕ) (presence : CallPresence)
      → Conserves p call us
          (process_by_state status connected config certified now presence call us).0
  unfolding process_by_state process_connected
  by_state-Conserves ongoing (some connected) presence = act_on-Conserves _ _ connected
  by_state-Conserves ongoing none presence =
      unchanged-Conserves p key certified us u there call nonneg
  by_state-Conserves pending _ presence = unchanged-Conserves p key certified us u there call nonneg
  by_state-Conserves ended _ presence = unchanged-Conserves p key certified us u there call nonneg

-- One pass of the watchdog over a call, in whatever state, whose payer has a row and whose fee
-- taken so far is not negative: the payer's coins fall by exactly the growth of the amounts
-- booked on the call, deducted amount and service fee together, nobody else's coins change, and
-- the fee taken stays at zero or above.
pub process_call-Conserves :
    (p : ℕ) (config : WatchdogConfig) (certified : ℕ → Bool) (now : ℕ) (presence : CallPresence)
    (call : CallRecord) (us : Users) (u : AppUser)
    → 0 < p
    → lookup p us ≡ some u
    → watchdog_payer_id certified call ≡ some p
    → pos 0 ≤ℤ call.fee.payer_actual_coins
    → Conserves p call us (process_call config certified now presence call us).0
unfolding process_call
process_call-Conserves p config certified now presence call us u key there who nonneg =
    by_state-Conserves p config certified now call us u key there who nonneg call.status
      call.connected_at presence
