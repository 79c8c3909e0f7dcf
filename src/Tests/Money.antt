-- ===== src/Tests/Money.antt =====
-- The theorems on the money of a call, applied to a call of 85 seconds.
use new1v.Prelude.{zero, suc, ◌≡◌, refl, false, none, some, [], ◌∷◌, arith}
use new1v.Prelude.Int.{pos, ◌+ℤ◌, ◌-ℤ◌, ◌*ℤ◌, ◌//ℤ◌, ◌≤ℤ◌}
use new1v.Prelude.Dict.{lookup}
use new1v.Records.{CallRecord}
use new1v.Users.{charge_coins}
use new1v.Users.Balance.{Pays, IsSolvent}
use new1v.Billing.{clamp_int, calc_due_minutes, next_due_second, resolve_billing_free_seconds}
use new1v.Presence.{resolve_force_exit_decision, earliest_gone, eval_role, effective_last_seen}
use new1v.Fee.{
  cents, calc_certified_user_income_diamonds, calc_net_call_income_diamonds,
  build_call_service_fee_final_state,
}
use new1v.Fee.Final.{final_state_splits}
use new1v.FeeAdjustment.{FeeLoop, apply_call_service_fee_final_adjustment}
use new1v.FeeAdjustment.Conserved.{fee_adjustment_conserves}
use new1v.IncomeSettlement.{
  settle_call_certified_user_income_once, resolve_snapshot_share_bps, income_receiver, pay_income,
}
use new1v.IncomeSettlement.Once.{Credits, settles_at_most_once, settlement-Credits}
use new1v.Watchdog.{process_call, watchdog_payer_id}
use new1v.Watchdog.Finish.{Outcome}
use new1v.Watchdog.Conserved.{Conserves}
use new1v.Watchdog.{unchanged, bill_call, renew_call, try_charge, charge_call}
use new1v.Watchdog.Minute.{minute_charged_once}
use new1v.Watchdog.Pass.{process_call-Conserves}
use new1v.Watchdog.FreeCalls.{free_call-IsCut, IsCut}
use new1v.Database.{Database}
use new1v.CallApi.Reply.{success}
use new1v.CallApi.Answer.{put_call}
use new1v.CallApi.End.{call_end, resolve_payer_id_with_snapshot}
use new1v.CallApi.End.Conserved.{call_end-Conserves}
use new1v.CallApi.End.Twice.{call_end_idempotent}
use new1v.Tests.Data.{ann, users, certified, running, presence, config}

-- At second 1085 two minutes are due, 200 coins and 10 of service fee.
process_call-Conserves_example :
    Conserves 1 running users (process_call config certified 1085000000 presence running users).0
unfolding lookup watchdog_payer_id
process_call-Conserves_example =
    process_call-Conserves 1 config certified 1085000000 presence running users ann (omega arith)
      refl refl (ground arith)

abbrev database : Database
database = record { users = users; calls = (7, running) ∷ []; next_call_id = 8 }

call_end-Conserves_example :
    (o : Outcome) × (call_end (pos 10) 1085000000 2 7 database
      ≡ (put_call 7 o.call (record database { users = o.users }), success))
    × Conserves 1 running users o
unfolding lookup resolve_payer_id_with_snapshot
call_end-Conserves_example =
    call_end-Conserves (pos 10) 1085000000 2 7 running database 1 ann refl refl refl refl
      (omega arith) refl (ground arith) (ground arith)

call_end_idempotent_example :
    (call_end (pos 10) 1090000000 1 7 (call_end (pos 10) 1085000000 2 7 database).0).0
    ≡ (call_end (pos 10) 1085000000 2 7 database).0
unfolding lookup
call_end_idempotent_example =
    call_end_idempotent (pos 10) (pos 10) 1085000000 1090000000 2 1 7 running database refl refl

-- Two minutes are booked and the fee of the second is still to be taken.
abbrev two_minutes : CallRecord
two_minutes = record running { deducted_amount = pos 200; deducted_minutes = pos 2 }

fee_adjustment_conserves_example :
    let r = apply_call_service_fee_final_adjustment two_minutes (some 1) none 1085000000 users in
    let taken = r.call.fee in
    Pays 1 (taken.payer_actual_coins -ℤ pos 0) users r.users
    × (pos 0 ≤ℤ taken.payer_actual_coins)
    × (taken.payer_actual_coins ≤ℤ taken.payer_expected_coins)
unfolding lookup
fee_adjustment_conserves_example =
    fee_adjustment_conserves 1 two_minutes none 1085000000 users ann (omega arith) refl tt
      (ground arith)

settlement-Credits_example :
    Credits
      (pos 0)
      1085000000
      users
      (settle_call_certified_user_income_once running (pos 200) (some 1) none 1085000000 users)
settlement-Credits_example = settlement-Credits running (pos 200) (some 1) none 1085000000 users

settles_at_most_once_example :
    let r =
      settle_call_certified_user_income_once running (pos 200) (some 1) none 1085000000 users in
    let r' =
      settle_call_certified_user_income_once
        (record running { income = r.income })
        (pos 500)
        (some 2)
        none
        1090000000
        r.users in
    (r'.users ≡ r.users) × (r'.income ≡ r.income) × (r'.result.settled ≡ false)
unfolding settle_call_certified_user_income_once resolve_snapshot_share_bps clamp_int
    income_receiver pay_income calc_certified_user_income_diamonds calc_net_call_income_diamonds
    cents lookup ◌//ℤ◌ ◌*ℤ◌ ◌-ℤ◌
settles_at_most_once_example =
    settles_at_most_once running (pos 200) (some 1) none 1085000000 users (pos 500) (some 2) none
      1090000000 refl

-- Ten coins were taken and five are due.
final_state_splits_example :
    let s =
      build_call_service_fee_final_state
        (pos 100)
        (pos 5000)
        (pos 2)
        (pos 1)
        (pos 1000)
        (pos 500)
        (pos 500) in
    (pos 0 ≤ℤ s.payer_actual_coins)
    × (s.payer_actual_coins ≤ℤ s.payer_expected_coins)
    × (pos 0 ≤ℤ s.payer_refund_coins)
    × (s.payer_actual_coins +ℤ s.payer_refund_coins ≡ pos 1000)
final_state_splits_example =
    final_state_splits (pos 100) (pos 5000) (pos 2) (pos 1) (pos 1000) (pos 500) (pos 500)
      (ground arith)

-- A balance for one fee of two.
abbrev loop : FeeLoop
loop = record {
  payer_expected = pos 0;
  income_expected = pos 0;
  payer_balance = pos 1500;
  payer_actual = pos 0;
  charged_additional = pos 0;
  balance_changed = false;
}

abbrev free_call : CallRecord
free_call = record running { call_price = pos 0; payer_user_id = some 0 }

free_call-IsCut_example :
    IsCut (process_call config certified 1085000000 presence free_call users).0.call
unfolding lookup resolve_force_exit_decision earliest_gone eval_role effective_last_seen
    calc_due_minutes next_due_second resolve_billing_free_seconds ◌-ℤ◌
free_call-IsCut_example =
    free_call-IsCut config certified 1000000000 1085000000 presence free_call users refl refl refl
      refl refl (record { due = refl; late = refl })

solvent : IsSolvent users
unfolding lookup
solvent zero = ground arith
solvent (suc zero) = ground arith
solvent (suc (suc zero)) = ground arith
solvent (suc (suc (suc n))) = ground arith

minute_charged_once_example :
    let o = bill_call config 10 certified 1000000000 1085000000 running users in
    bill_call config 10 certified 1000000000 1090000000 o.call o.users ≡ unchanged o.call o.users
unfolding bill_call renew_call try_charge charge_call watchdog_payer_id calc_due_minutes
    next_due_second charge_coins lookup cents ◌*ℤ◌ ◌-ℤ◌
minute_charged_once_example =
    minute_charged_once config 10 certified 1000000000 1085000000 1090000000 running users refl
      (λ h. cc) (omega arith)
