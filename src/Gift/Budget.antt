-- ===== src/Gift/Budget.antt =====
-- What the gifts of a user cost.
use new1v.Prelude.{
  ℕ, ◌≡◌, refl, true, not, List, [], ◌∷◌, ◌==◌, if◌then◌else◌, arith, inl, inr, Bool-cases, if-both,
  ◌∙◌, ap,
}
use new1v.Prelude.Int.{ℤ, pos, ltb_ℤ, ◌+ℤ◌, int_eqs}
use new1v.Users.{Users, charge_coins, credit_diamonds}
use new1v.Users.Balance.{coins, credit_diamonds-coins}
use new1v.Users.Charge.{Charged, Charged-none, Charged-refl, charge_coins-Charged}
use new1v.Fee.{cents}
use new1v.Gift.{
  GiftRecord, GiftTables, GiftServiceFeeConfig, GiftEnv, GiftSend, GiftReply, FeeTaken, no_fee,
  try_fee, take_fee, new_record, credit_income, book_gift, pay_gift, gift_send, takes_fee,
  calc_gift_service_fee,
}
use new1v.Gift.Outcome.{gift_send-outcome}

-- The price and the fee of a gift that user k sent, in hundredths.
abbrev cost_of : ℕ → GiftRecord → ℤ
cost_of k r =
    if r.sender_id == k then cents r.total_price +ℤ r.service_fee_sender_actual_coins else pos 0

unfoldable pub spent : ℕ → List GiftRecord → ℤ
spent k [] = pos 0
spent k (r ∷ records) = cost_of k r +ℤ spent k records

-- What a user has, and has spent on gifts.
abbrev pub budget : ℕ → GiftTables → ℤ
budget k t = coins k t.users +ℤ spent k t.records

-- The fee that was booked is the fee that was taken, and from the sender's coins.
abbrev pub TakesFee : ℕ → Users → FeeTaken → Type 0
TakesFee sender_id users fee = Charged sender_id fee.actual true users fee.users

try_fee-TakesFee :
    (sender_id : ℕ) (config : GiftServiceFeeConfig) (expected : ℤ) (users : Users)
    → TakesFee sender_id users (try_fee sender_id config expected users)
unfolding try_fee
try_fee-TakesFee sender_id config expected users =
    let c = charge_coins-Charged sender_id expected users in
    elim (Bool-cases (charge_coins sender_id expected users).1) [
      | inl e ↦ rw e (rw e at c)
      | inr e ↦ rw e (Charged-none sender_id expected (rw e at c))
    ]

pub take_fee-TakesFee :
    (sender_id : ℕ) (config : GiftServiceFeeConfig) (price : ℤ) (users : Users)
    → TakesFee sender_id users (take_fee sender_id config price users)
unfolding take_fee
take_fee-TakesFee sender_id config price users =
    let expected = calc_gift_service_fee price config.rate_bps in
    let nothing = Charged-none sender_id (pos 0) (Charged-refl sender_id (pos 0) users) in
    if-both (TakesFee sender_id users) (not (takes_fee config price)) (no_fee users) _ nothing (
      if-both (TakesFee sender_id users) (ltb_ℤ (pos 0) expected)
        (try_fee sender_id config expected users) _
        (try_fee-TakesFee sender_id config expected users) nothing)

credit_income-coins :
    (k target_id : ℕ) (income : ℤ) (users : Users)
    → coins k (credit_income target_id income users) ≡ coins k users
credit_income-coins k target_id income users =
    if-both (λ (x : Users). coins k x ≡ coins k users) (ltb_ℤ (pos 0) income)
      (credit_diamonds target_id income users) users
      (credit_diamonds-coins target_id k income users) refl

abbrev KeepsBudget : ℕ → GiftTables → GiftTables × GiftReply → Type 0
KeepsBudget k t r = budget k r.0 ≡ budget k t

module _ (k sender_id target_id gift_id : ℕ) (price share income : ℤ)
    (config : GiftServiceFeeConfig) where
  book_gift-budget :
      (users : Users) (t : GiftTables)
      → Charged sender_id (cents price) true t.users users
      → budget k (book_gift sender_id target_id gift_id price share income config users t)
        ≡ budget k t
  unfolding book_gift spent
  book_gift-budget users t c =
      let credited = credit_income target_id income users in
      let fee = take_fee sender_id config price credited in
      let taken = (take_fee-TakesFee sender_id config price credited).spent k in
      let same = credit_income-coins k target_id income users in
      let first = c.spent k in
      elim (Bool-cases (sender_id == k)) [
        | inl e ↦
            let cost : cost_of k (new_record sender_id target_id gift_id price share income fee)
                ≡ cents price +ℤ fee.actual =
              ground (arith, e) in
            omega (int_eqs, rw e at taken, same, rw e at first, cost)
        | inr e ↦
            let cost : cost_of k (new_record sender_id target_id gift_id price share income fee)
                ≡ pos 0 =
              ground (arith, e) in
            omega (int_eqs, rw e at taken, same, rw e at first, cost)
      ]

  pay_gift-budget :
      (t : GiftTables)
      → KeepsBudget k t (pay_gift sender_id target_id gift_id price share income config t)
  unfolding pay_gift
  pay_gift-budget t =
      let c = charge_coins-Charged sender_id (cents price) t.users in
      elim (Bool-cases (charge_coins sender_id (cents price) t.users).1) [
        | inl e ↦ rw e (book_gift-budget _ t (rw e at c))
        | inr e ↦ rw e refl
      ]

Same-budget :
    (k : ℕ) (t t' : GiftTables)
    → t'.users ≡ t.users
    → t'.records ≡ t.records
    → budget k t' ≡ budget k t
Same-budget k t t' u r =
    ap (λ x. coins k x +ℤ spent k t'.records) u ∙ ap (λ x. coins k t.users +ℤ spent k x) r

-- A gift, sent or refused on any ground, with its fee taken, skipped or not due: for every user, the
-- coins and the recorded prices and fees of the gifts sent keep their sum.
pub gift_send-budget :
    (env : GiftEnv) (sender_id : ℕ) (req : GiftSend) (k : ℕ) (t : GiftTables)
    → budget k (gift_send env sender_id req t).0 ≡ budget k t
gift_send-budget env sender_id req k t =
    gift_send-outcome (KeepsBudget k t) env sender_id req t
      (λ t' e same. Same-budget k t t' same.0 same.1)
      (λ t' target g same.
        pay_gift-budget k sender_id req.target_user_id req.gift_id g.price
          env.certified_user_share_bps _ env.fee_config t'
        ∙ Same-budget k t t' same.0 same.1)
