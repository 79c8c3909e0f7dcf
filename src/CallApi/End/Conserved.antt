-- ===== src/CallApi/End/Conserved.antt =====
-- Money at the end of a call: what the payer loses is what the call books.
use new1v.Prelude.{ℕ, ◌<◌, ◌≡◌, refl, true, false, none, some, arith, ◌∙◌, List}
use new1v.Prelude.Int.{ℤ, pos, ◌-ℤ◌, ◌*ℤ◌, ◌≤ℤ◌, int_eqs}
use new1v.Prelude.Dict.{lookup}
use new1v.Records.{AppUser, CallRecord}
use new1v.Users.{Users}
use new1v.Users.Balance.{Pays, Pays-row, Pays-eq}
use new1v.Fee.{cents}
use new1v.Fee.Rounding.{cents_parts}
use new1v.Watchdog.Finish.{Outcome, finish_call, bill_difference}
use new1v.Watchdog.Bill.{bill_difference-Pays}
use new1v.Watchdog.Conserved.{Conserves, ending-Conserves}
use new1v.Database.{Database, takes_part}
use new1v.CallApi.Reply.{success}
use new1v.CallApi.Answer.{put_call}
use new1v.CallApi.End.Twice.{call_end-there}
use new1v.CallApi.End.{
  end_found, call_end, is_ended, settle_end, charged_before, due_at_end, receive_income,
  resolve_payer_id_with_snapshot, participants_of,
}

charged_before-nonneg : (d : ℤ) → pos 0 ≤ℤ d → charged_before d ≡ d
charged_before-nonneg d h = ground arith

receive-keeps :
    (participants : List (ℕ × AppUser)) (payer_id : ℕ) (call : CallRecord)
    → ((receive_income participants payer_id call).fee ≡ call.fee)
      × ((receive_income participants payer_id call).deducted_amount ≡ call.deducted_amount)
unfolding receive_income
receive-keeps participants payer_id call = ground arith

received-Conserves :
    (p : ℕ) (key : 0 < p) (call call' : CallRecord) (total : ℤ) (participants : List (ℕ × AppUser))
    (now : ℕ) (us vs : Users) (v : AppUser) (charged : List ℕ)
    → lookup p vs ≡ some v
    → Pays p (cents call'.deducted_amount -ℤ cents call.deducted_amount) us vs
    → call'.fee ≡ call.fee
    → pos 0 ≤ℤ call.fee.payer_actual_coins
    → Conserves p call us (
        finish_call
          (receive_income participants p call')
          (some p)
          none
          total
          (some participants)
          now
          vs
          charged)
received-Conserves p key call call' total participants now us vs v charged there bill same nonneg =
    let (fee, amount) = receive-keeps participants p call' in
    ending-Conserves p key call (receive_income participants p call') none total (some participants)
      now us vs v charged there tt (Pays-eq (omega (int_eqs, cents_parts, amount)) bill)
      (fee ∙ same) nonneg

-- Ending a call whose payer p has a row spends on the call exactly what p loses, whatever minutes
-- are due, if nothing negative was booked on it before.
settle_end-Conserves :
    (free_seconds : ℤ) (now : ℕ) (call : CallRecord) (us : Users) (p : ℕ) (u : AppUser)
    → resolve_payer_id_with_snapshot call us ≡ p
    → 0 < p
    → lookup p us ≡ some u
    → pos 0 ≤ℤ call.deducted_amount
    → pos 0 ≤ℤ call.fee.payer_actual_coins
    → Conserves p call us (settle_end free_seconds now call us)
unfolding settle_end
settle_end-Conserves free_seconds now call us p u pays key there booked fee =
    let actual = pos (due_at_end free_seconds now call) *ℤ call.call_price in
    let base = charged_before call.deducted_amount in
    let b = bill_difference (some p) actual call.deducted_amount base us in
    let paid = bill_difference-Pays p us u there key actual call.deducted_amount base in
    let (v, there', _) = Pays-row u paid there in
    rw pays (
      received-Conserves p key call _ b.charged_amount (participants_of call us) now us b.users v _
        there'
        (Pays-eq (omega (int_eqs, cents_parts, charged_before-nonneg call.deducted_amount booked))
          paid)
        refl fee)

-- A party hangs up a call that has not ended and whose payer p has a row; nothing negative is
-- booked on the call as deducted or as service fee. The tables then hold the call and the users of
-- an ending in which p's coins fall by exactly the growth of the amounts booked on the call,
-- deducted amount and service fee together (they rise where that is negative, a refund), nobody
-- else's coins change, and the fee taken stays at zero or above.
pub call_end-Conserves :
    (free_seconds : ℤ) (now user_id id : ℕ) (call : CallRecord) (db : Database) (p : ℕ)
    (u : AppUser)
    → lookup id db.calls ≡ some call
    → takes_part user_id call ≡ true
    → is_ended call.status ≡ false
    → resolve_payer_id_with_snapshot call db.users ≡ p
    → 0 < p
    → lookup p db.users ≡ some u
    → pos 0 ≤ℤ call.deducted_amount
    → pos 0 ≤ℤ call.fee.payer_actual_coins
    → (o : Outcome) × (call_end free_seconds now user_id id db
        ≡ (put_call id o.call (record db { users = o.users }), success))
      × Conserves p call db.users o
unfolding end_found
call_end-Conserves free_seconds now user_id id call db p u there party live pays key row booked
      fee =
    (
      settle_end free_seconds now call db.users,
      call_end-there free_seconds now user_id id call db there ∙ simp (party, live) refl,
      settle_end-Conserves free_seconds now call db.users p u pays key row booked fee,
    )
