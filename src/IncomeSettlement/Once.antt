-- ===== src/IncomeSettlement/Once.antt =====
-- The income of a call is paid at most once, to one user, and never more than the call cost.

use new1v.Prelude.{
  ℕ, ◌≡◌, ◌≢◌, refl, true, false, Option, some, List, arith, is_some, Option-cases, inl, inr, ◌==◌,
  ◌||◌, Bool-cases,
}
use new1v.Prelude.Int.{ℤ, pos, ◌+ℤ◌, ◌-ℤ◌, leb_ℤ, max_zero}
use new1v.Prelude.Dict.{lookup, lookup-alter}
use new1v.Records.{AppUser, CallRecord, Income}
use new1v.Users.{Users, credit_diamonds}
use new1v.Users.Balance.{coins, diamonds, credit_diamonds-coins}
use new1v.Fee.{cents, calc_certified_user_income_diamonds, calc_net_call_income_diamonds}
use new1v.IncomeSettlement.{
  Settled, CallIncomeSettlement, pay_income, income_receiver, resolve_snapshot_share_bps,
  settle_call_certified_user_income_once,
}

-- What a settlement with service fee `fee` did to the user table.
pub record Credits (fee : ℤ) (now : ℕ) (users : Users) (r : Settled) : Type 0 where
  pub same_coins : (j : ℕ) → coins j r.users ≡ coins j users
  pub others : (j : ℕ) → j ≢ r.result.certified_user_id → diamonds j r.users ≡ diamonds j users
  pub unsettled : r.result.settled ≡ false → r.users ≡ users
  pub settled_at : r.result.settled ≡ true → r.income.income_settled_at ≡ some now
  pub paid :
      r.result.settled ≡ true
      → diamonds r.result.certified_user_id r.users
        ≡ diamonds r.result.certified_user_id users
          +ℤ (cents r.income.certified_user_income_diamonds -ℤ fee)

unsettled-Credits :
    (fee : ℤ) (now : ℕ) (users : Users) (income : Income) (result : CallIncomeSettlement)
    → result.settled ≡ false
    → Credits fee now users (record { income = income; users = users; result = result })
unsettled-Credits fee now users income result e = record {
  same_coins = λ j. refl;
  others = λ j h. refl;
  unsettled = λ h. refl;
  settled_at = λ h. cc;
  paid = λ h. cc;
}

net_of :
    (gross fee : ℤ)
    → leb_ℤ (calc_net_call_income_diamonds gross fee) (pos 0) ≡ false
    → calc_net_call_income_diamonds gross fee ≡ gross -ℤ fee
unfolding calc_net_call_income_diamonds
net_of gross fee h = ground arith

diamonds-credit :
    (p : ℕ) (z : ℤ) (us : Users) (u : AppUser)
    → lookup p us ≡ some u
    → diamonds p (credit_diamonds p z us) ≡ diamonds p us +ℤ z
unfolding credit_diamonds
diamonds-credit p z us u h =
    ground (arith, lookup-alter p p (λ v. record v { diamonds = v.diamonds +ℤ z }) us)

diamonds-credit_ne :
    (p j : ℕ) (z : ℤ) (us : Users) → j ≢ p → diamonds j (credit_diamonds p z us) ≡ diamonds j us
unfolding credit_diamonds
diamonds-credit_ne p j z us h =
    ground (arith, lookup-alter j p (λ v. record v { diamonds = v.diamonds +ℤ z }) us)

pay_income-Credits :
    (income : Income) (receiver : ℕ) (fee : ℤ) (now : ℕ) (users : Users)
    → let gross = income.certified_user_income_diamonds in
      let net = calc_net_call_income_diamonds (cents gross) fee in
      leb_ℤ net (pos 0) ≡ false
      → Credits fee now users (pay_income income receiver gross fee net now users)
unfolding pay_income
pay_income-Credits income receiver fee now users h = elim (Option-cases (lookup receiver users)) [
  | inl missing ↦ rw (missing, pay_income) (unsettled-Credits fee now users income _ refl)
  | inr (u, there) ↦
      let gross = income.certified_user_income_diamonds in
      let net = calc_net_call_income_diamonds (cents gross) fee in
      rw (there, pay_income)
        (record {
          same_coins = λ j. credit_diamonds-coins receiver j net users;
          others = λ j ne. diamonds-credit_ne receiver j net users ne;
          unsettled = λ e. cc;
          settled_at = λ e. refl;
          paid =
              λ e. rw (← net_of (cents gross) fee h) (diamonds-credit receiver net users u there);
        })
]

-- A settlement changes no coins; it credits at most one user, the receiver, and with exactly the
-- recorded income less the service fee; and where it reports no payment no balance has changed.
pub settlement-Credits :
    (call : CallRecord) (total_fee : ℤ) (payer_id : Option ℕ)
    (participants : Option (List (ℕ × AppUser))) (now : ℕ) (users : Users)
    → Credits call.fee.income_actual_diamonds now users
        (settle_call_certified_user_income_once call total_fee payer_id participants now users)
unfolding settle_call_certified_user_income_once
settlement-Credits call total_fee payer_id participants now users =
    let fee = call.fee.income_actual_diamonds in
    let idle = unsettled-Credits fee now users in
    let share = resolve_snapshot_share_bps call.income.certified_user_share_bps in
    let gross = calc_certified_user_income_diamonds (max_zero total_fee) share in
    let net = calc_net_call_income_diamonds (cents gross) fee in
    let receiver = income_receiver call payer_id participants in
    elim (Bool-cases (is_some call.income.income_settled_at)) [
      | inl e ↦ rw e (idle _ _ refl)
      | inr e1 ↦ elim (Bool-cases (leb_ℤ (max_zero total_fee) (pos 0) || (receiver == 0))) [
        | inl e ↦ rw (e1, e) (idle _ _ refl)
        | inr e2 ↦ elim (Bool-cases (leb_ℤ gross (pos 0))) [
          | inl e ↦ rw (e1, e2, e) (idle _ _ refl)
          | inr e3 ↦ elim (Bool-cases (leb_ℤ net (pos 0))) [
            | inl e ↦ rw (e1, e2, e3, e) (idle _ _ refl)
            | inr e ↦ rw (e1, e2, e3, e) (pay_income-Credits _ _ fee now users e)
          ]
        ]
      ]
    ]

settled_once :
    (call : CallRecord) (total_fee : ℤ) (payer_id : Option ℕ)
    (participants : Option (List (ℕ × AppUser))) (now : ℕ) (users : Users) {t : ℕ}
    → call.income.income_settled_at ≡ some t
    → let r =
        settle_call_certified_user_income_once call total_fee payer_id participants now users in
      (r.users ≡ users) × (r.income ≡ call.income) × (r.result.settled ≡ false)
unfolding settle_call_certified_user_income_once
settled_once call total_fee payer_id participants now users h =
    let e : is_some call.income.income_settled_at ≡ true = ground (arith, h) in
    rw e (refl, refl, refl)

-- Once a settlement has paid, every later settlement of that call, whatever it is given and at
-- whatever time, leaves the user table and the call's income as they are.
pub settles_at_most_once :
    (call : CallRecord) (total_fee : ℤ) (payer_id : Option ℕ)
    (participants : Option (List (ℕ × AppUser))) (now : ℕ) (users : Users) (fee' : ℤ)
    (payer' : Option ℕ) (participants' : Option (List (ℕ × AppUser))) (later : ℕ)
    → let r =
        settle_call_certified_user_income_once call total_fee payer_id participants now users in
      r.result.settled ≡ true
      → let r' =
          settle_call_certified_user_income_once
            (record call { income = r.income })
            fee'
            payer'
            participants'
            later
            r.users in
        (r'.users ≡ r.users) × (r'.income ≡ r.income) × (r'.result.settled ≡ false)
settles_at_most_once call total_fee payer_id participants now users fee' payer' participants' later
      h =
    let r = settle_call_certified_user_income_once call total_fee payer_id participants now users in
    let c = settlement-Credits call total_fee payer_id participants now users in
    settled_once (record call { income = r.income }) fee' payer' participants' later r.users
      (c.settled_at h)
