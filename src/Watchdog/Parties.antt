-- ===== src/Watchdog/Parties.antt =====
-- A pass of the watchdog and the end of a call keep the two parties of the call.
use new1v.Prelude.{
  ℕ, ◌≡◌, refl, Bool, Option, none, some, List, [], if-both, Option-cases, inl, inr, ◌∙◌, arith,
}
use new1v.Prelude.Int.{ℤ, pos, ◌-ℤ◌, ltb_ℤ, ◌*ℤ◌}
use new1v.Prelude.Dict.{lookup}
use new1v.Records.{AppUser, CallRecord, CallStatus, pending, ongoing, ended}
use new1v.Users.{Users, charge_coins}
use new1v.Billing.{calc_due_minutes}
use new1v.Fee.{cents}
use new1v.FeeAdjustment.{Payer, apply_call_service_fee_final_adjustment}
use new1v.Presence.{CallPresence, ForcedEnd}
use new1v.Watchdog.Config.{WatchdogConfig}
use new1v.Watchdog.Finish.{Outcome, finish_call, fill_income_receiver}
use new1v.Watchdog.{
  watchdog_payer_id, unchanged, force_exit_call, balance_empty_call, charge_call, try_charge,
  renew_call, bill_call, act_on, process_by_state, process_connected, process_call, connected_since,
}

pub record SameParties (call call' : CallRecord) : Type 0 where
  pub caller : call'.caller_id ≡ call.caller_id
  pub callee : call'.callee_id ≡ call.callee_id

abbrev Keeps : CallRecord → Outcome → Type 0
Keeps call o = SameParties call o.call

pub finish_call-SameParties :
    (call : CallRecord) (payer_id : Option ℕ) (payer : Option Payer) (total : ℤ)
    (participants : Option (List (ℕ × AppUser))) (now : ℕ) (us : Users) (charged : List ℕ)
    → SameParties call (finish_call call payer_id payer total participants now us charged).call
unfolding finish_call apply_call_service_fee_final_adjustment
finish_call-SameParties call payer_id payer total participants now us charged = record {
  caller = refl;
  callee = refl;
}

fill-SameParties :
    (certified : ℕ → Bool) (payer_id : Option ℕ) (call : CallRecord)
    → SameParties call (fill_income_receiver certified payer_id call)
unfolding fill_income_receiver
fill-SameParties certified payer_id call = record { caller = ground arith; callee = ground arith }

pub SameParties-trans : {a b c : CallRecord} → SameParties a b → SameParties b c → SameParties a c
SameParties-trans r s = record { caller = s.caller ∙ r.caller; callee = s.callee ∙ r.callee }

module _ (certified : ℕ → Bool) (call : CallRecord) where
  -- An ending keeps the parties of the call that it starts from.
  ending-SameParties :
      (call' : CallRecord) (payer_id : Option ℕ) (payer : Option Payer) (total : ℤ) (now : ℕ)
      (us : Users) (charged : List ℕ)
      → SameParties call call'
      → SameParties call
          (finish_call
            (fill_income_receiver certified payer_id call')
            payer_id
            payer
            total
            none
            now
            us
            charged).call
  ending-SameParties call' payer_id payer total now us charged h =
      SameParties-trans (SameParties-trans h (fill-SameParties certified payer_id call')) (
        finish_call-SameParties (fill_income_receiver certified payer_id call') payer_id payer total
          none now us charged)

  force_exit-Keeps :
      (free : ℕ) (e : ForcedEnd) (connected now : ℕ) (us : Users)
      → Keeps call (force_exit_call free certified e connected now call us)
  unfolding force_exit_call
  force_exit-Keeps free e connected now us =
      ending-SameParties _ _ none _ now _ _ (record { caller = refl; callee = refl })

  balance_empty-Keeps :
      (p : ℕ) (payer : Option Payer) (duration now : ℕ) (us : Users)
      → Keeps call (balance_empty_call certified p payer duration now call us)
  unfolding balance_empty_call
  balance_empty-Keeps p payer duration now us =
      ending-SameParties _ (some p) payer _ now us [] (record { caller = refl; callee = refl })

  try_charge-Keeps :
      (p : ℕ) (u : AppUser) (amount : ℤ) (due duration now : ℕ) (us : Users)
      → Keeps call (try_charge certified p u amount due duration now call us)
  unfolding try_charge charge_call
  try_charge-Keeps p u amount due duration now us =
      let (users', paid) = charge_coins p (cents amount) us in
      if-both (Keeps call) paid (charge_call p u.coins amount due now call users') _
        (record { caller = refl; callee = refl }) (balance_empty-Keeps p none duration now users')

  renew-Keeps :
      (p due duration now : ℕ) (us : Users)
      → Keeps call (renew_call certified p due duration now call us)
  unfolding renew_call lookup
  renew-Keeps p due duration now us =
      let amount = (pos due -ℤ call.deducted_minutes) *ℤ call.call_price in
      elim (Option-cases (lookup p us)) [
        | inl e ↦ rw (e, renew_call) (balance_empty-Keeps p none duration now us)
        | inr (u, e) ↦
            let payer : Payer = record { id = p; coins = u.coins } in
            rw (e, renew_call)
              (if-both (Keeps call) (ltb_ℤ u.coins (cents amount))
                (balance_empty_call certified p (some payer) duration now call us) _
                (balance_empty-Keeps p (some payer) duration now us)
                (try_charge-Keeps p u amount due duration now us))
      ]

  bill-Keeps :
      (config : WatchdogConfig) (free connected now : ℕ) (us : Users)
      → Keeps call (bill_call config free certified connected now call us)
  unfolding bill_call
  bill-Keeps config free connected now us =
      if-both (Keeps call) _ (unchanged call us) _ (record { caller = refl; callee = refl })
        (if-both (Keeps call) _ (unchanged call us) _ (record { caller = refl; callee = refl })
          (payer_cases (watchdog_payer_id certified call)))
    where
      payer_cases :
          (o : Option ℕ)
          → Keeps call (elim o [
            | none ↦ unchanged (record call { last_renew_at = some now; updated_at = now }) us
            | some p ↦
                renew_call certified p
                  (calc_due_minutes (connected_since now connected) free)
                  (connected_since now connected)
                  now
                  call
                  us
          ])
      payer_cases none = record { caller = refl; callee = refl }
      payer_cases (some p) = renew-Keeps p _ _ now us

  act_on-Keeps :
      (d : Option ForcedEnd) (config : WatchdogConfig) (free connected now : ℕ) (us : Users)
      → Keeps call (act_on d config free certified connected now call us)
  unfolding act_on
  act_on-Keeps none config free connected now us = bill-Keeps config free connected now us
  act_on-Keeps (some e) config free connected now us = force_exit-Keeps free e connected now us

  by_state-Keeps :
      (status : CallStatus) (since : Option ℕ) (config : WatchdogConfig) (now : ℕ)
      (presence : CallPresence) (us : Users)
      → Keeps call (process_by_state status since config certified now presence call us).0
  unfolding process_by_state process_connected
  by_state-Keeps ongoing (some connected) config now presence us =
      act_on-Keeps _ config _ connected now us
  by_state-Keeps ongoing none config now presence us = record { caller = refl; callee = refl }
  by_state-Keeps pending _ config now presence us = record { caller = refl; callee = refl }
  by_state-Keeps ended _ config now presence us = record { caller = refl; callee = refl }

pub process_call-SameParties :
    (config : WatchdogConfig) (certified : ℕ → Bool) (now : ℕ) (presence : CallPresence)
    (call : CallRecord) (us : Users)
    → SameParties call (process_call config certified now presence call us).0.call
unfolding process_call
process_call-SameParties config certified now presence call us =
    by_state-Keeps certified call call.status call.connected_at config now presence us
