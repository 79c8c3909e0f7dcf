-- ===== src/Gift/Income.antt =====
-- What the receiver of a gift is given.
use new1v.Prelude.{
  ℕ, ◌*◌, ◌≡◌, refl, true, List, [], ◌∷◌, ◌==◌, if◌then◌else◌, arith, inl, inr, Bool-cases, is_some,
  ◌∙◌, ap,
}
use new1v.Prelude.Int.{ℤ, pos, pos_part, ltb_ℤ, ◌≤ℤ◌, ◌+ℤ◌, int_eqs, pos-*ℤ-pos}
use new1v.Prelude.Dict.{lookup}
use new1v.Records.{AppUser}
use new1v.Users.{Users, charge_coins}
use new1v.Users.Balance.{diamonds}
use new1v.Users.Charge.{Charged, charge_coins-Charged, credit_diamonds-diamonds}
use new1v.Fee.{cents}
use new1v.Fee.Rounding.{quantize_share_bounds}
use new1v.Gift.{
  GiftRecord, GiftTables, GiftServiceFeeConfig, GiftEnv, GiftSend, GiftReply, take_fee, new_record,
  credit_income, book_gift, pay_gift, gift_send, gift_income,
  calc_gift_certified_user_income_diamonds,
}
use new1v.Gift.Outcome.{gift_send-outcome}
use new1v.Gift.Budget.{take_fee-TakesFee}

abbrev income_of : ℕ → GiftRecord → ℤ
income_of k r = if r.receiver_id == k then r.certified_user_income_diamonds else pos 0

-- The recorded incomes of user k.
unfoldable pub earned : ℕ → List GiftRecord → ℤ
earned k [] = pos 0
earned k (r ∷ records) = income_of k r +ℤ earned k records

-- Between the two states the diamonds of user k have grown by the incomes recorded.
abbrev pub Earns : ℕ → GiftTables → GiftTables → Type 0
Earns k t r = diamonds k r.users +ℤ earned k t.records ≡ diamonds k t.users +ℤ earned k r.records

gift_income_nonneg : (z share : ℤ) → pos 0 ≤ℤ calc_gift_certified_user_income_diamonds z share
unfolding calc_gift_certified_user_income_diamonds cents
gift_income_nonneg z share =
    rw (pos-*ℤ-pos (pos_part z) 100) ((quantize_share_bounds (pos_part z * 100) share).0)

credit_income-diamonds :
    (k target_id : ℕ) (income : ℤ) (users : Users)
    → pos 0 ≤ℤ income
    → is_some (lookup k users) ≡ true
    → diamonds k (credit_income target_id income users)
      ≡ diamonds k users +ℤ (if target_id == k then income else pos 0)
credit_income-diamonds k target_id income users h row = elim (Bool-cases (ltb_ℤ (pos 0) income)) [
  | inl e ↦ rw e (credit_diamonds-diamonds k target_id income users row)
  | inr e ↦
      let none_due : income ≡ pos 0 = ground (arith, h, e) in
      let nothing : (if target_id == k then income else pos 0) ≡ pos 0 = ground (arith, none_due) in
      rw e (omega (int_eqs, nothing))
]

abbrev EarnsReply : ℕ → GiftTables → GiftTables × GiftReply → Type 0
EarnsReply k t r = Earns k t r.0

module _ (k sender_id target_id gift_id : ℕ) (price share income : ℤ)
    (config : GiftServiceFeeConfig) (nonneg : pos 0 ≤ℤ income) where
  book_gift-Earns :
      (users : Users) (t : GiftTables)
      → is_some (lookup k t.users) ≡ true
      → Charged sender_id (cents price) true t.users users
      → Earns k t (book_gift sender_id target_id gift_id price share income config users t)
  unfolding book_gift earned
  book_gift-Earns users t row c =
      let credited = credit_income target_id income users in
      let kept = (take_fee-TakesFee sender_id config price credited).income k in
      let fee = take_fee sender_id config price credited in
      let got = credit_income-diamonds k target_id income users nonneg (c.present k ∙ row) in
      let booked : income_of k (new_record sender_id target_id gift_id price share income fee)
          ≡ (if target_id == k then income else pos 0) =
        refl in
      omega (int_eqs, kept, got, c.income k, booked)

  pay_gift-Earns :
      (t : GiftTables)
      → is_some (lookup k t.users) ≡ true
      → EarnsReply k t (pay_gift sender_id target_id gift_id price share income config t)
  unfolding pay_gift
  pay_gift-Earns t row =
      let c = charge_coins-Charged sender_id (cents price) t.users in
      elim (Bool-cases (charge_coins sender_id (cents price) t.users).1) [
        | inl e ↦ rw e (book_gift-Earns _ t row (rw e at c))
        | inr e ↦ rw e refl
      ]

-- A gift, sent or refused on any ground: the diamonds of every user who has a row grow by exactly the
-- incomes that are recorded for that user.
pub gift_send-Earns :
    (env : GiftEnv) (sender_id : ℕ) (req : GiftSend) (k : ℕ) (t : GiftTables)
    → is_some (lookup k t.users) ≡ true
    → Earns k t (gift_send env sender_id req t).0
gift_send-Earns env sender_id req k t row =
    gift_send-outcome (EarnsReply k t) env sender_id req t
      (λ t' e same. omega (int_eqs, ap (diamonds k) same.0, ap (earned k) same.1))
      (λ t' target g same. paid t' target g.price same.0 same.1)
  where
    paid :
        (t' : GiftTables) (target : AppUser) (price : ℤ)
        → t'.users ≡ t.users
        → t'.records ≡ t.records
        → EarnsReply k t (
            pay_gift sender_id req.target_user_id req.gift_id price env.certified_user_share_bps
              (gift_income env target price)
              env.fee_config
              t')
    paid t' target price u r =
        let step =
          pay_gift-Earns k sender_id req.target_user_id req.gift_id price
            env.certified_user_share_bps (gift_income env target price) env.fee_config
            (gift_income_nonneg _ env.certified_user_share_bps) t'
            (ap (λ x. is_some (lookup k x)) u ∙ row) in
        omega (int_eqs, step, ap (diamonds k) u, ap (earned k) r)
