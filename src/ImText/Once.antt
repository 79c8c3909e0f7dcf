-- ===== src/ImText/Once.antt =====
-- A request is charged once.
use new1v.Prelude.{
  ℕ, ◌≡◌, inl, inr, refl, ap, Bool, true, false, Option, none, some, ◌==◌, arith, Option-cases,
  if-both,
}
use new1v.Prelude.Int.{ℤ}
use new1v.Records.{AppUser}
use new1v.Users.{charge_coins}
use new1v.Fee.{cents}
use new1v.CallApi.Dialing.{normal_user}
use new1v.ImText.{
  ImTables, ImEnv, ImTextReply, charged, not_charged, insufficient_coins, self_chat,
  ImTextMessageChargeRecord, ImTextBillingConfig, find_charge, book_charge, pay_message,
  charge_between, with_users, charge_im_text_message, receiver_income, new_charge,
}

abbrev is_charged : ImTextReply → Bool
is_charged (charged price income) = true
is_charged _ = false

-- A recorded request changes nothing any more.
abbrev Stays : ImTables → ImTables × ImTextReply → Type 0
Stays t r = r.0 ≡ t

recorded-Stays :
    (env : ImEnv) (sender_id receiver_id request_id : ℕ) (t : ImTables)
    (r : ImTextMessageChargeRecord)
    → find_charge sender_id request_id t.records ≡ some r
    → Stays t (charge_im_text_message env sender_id receiver_id request_id t)
unfolding charge_im_text_message charge_between
recorded-Stays env sender_id receiver_id request_id t r h =
    if-both (Stays t) (sender_id == receiver_id) (t, self_chat) _ refl
      (found (normal_user sender_id t.users) (normal_user receiver_id t.users))
  where
    found :
        (sender receiver : Option AppUser)
        → Stays t (with_users sender receiver env sender_id receiver_id request_id t)
    found none receiver = refl
    found (some sender) none = refl
    found (some sender) (some receiver) = rw (h, charge_between) refl

abbrev Recorded : ℕ → ℕ → ImTables × ImTextReply → Type 0
Recorded sender_id request_id r =
    is_charged r.1 ≡ true
    → (c : ImTextMessageChargeRecord) × (find_charge sender_id request_id r.0.records ≡ some c)

pay_message-Recorded :
    (sender_id receiver_id request_id : ℕ) (config : ImTextBillingConfig) (income : ℤ)
    (t : ImTables)
    → Recorded sender_id request_id (pay_message sender_id receiver_id request_id config income t)
unfolding pay_message find_charge
pay_message-Recorded sender_id receiver_id request_id config income t =
    if-both (Recorded sender_id request_id) (charge_coins sender_id (cents config.price) t.users).1
      (
        book_charge sender_id receiver_id request_id config income
            (charge_coins sender_id (cents config.price) t.users).0 t,
        charged config.price income,
      )
      (t, insufficient_coins)
      (λ h. (new_charge sender_id receiver_id request_id config income, ground arith)) (λ h. cc)

charge_between-Recorded :
    (env : ImEnv) (sender_id receiver_id request_id : ℕ) (sender receiver : AppUser) (t : ImTables)
    → Recorded sender_id request_id
        (charge_between env sender_id receiver_id request_id sender receiver t)
unfolding charge_between
charge_between-Recorded env sender_id receiver_id request_id sender receiver t =
    elim (Option-cases (find_charge sender_id request_id t.records)) [
      | inr (r, e) ↦ rw (e, charge_between) (λ h. (r, e))
      | inl e ↦
          rw (e, charge_between)
            (if-both (Recorded sender_id request_id) _
              (pay_message sender_id receiver_id request_id env.config
                (receiver_income env.config receiver) t)
              (t, not_charged)
              (pay_message-Recorded sender_id receiver_id request_id env.config
                (receiver_income env.config receiver) t)
              (λ h. cc))
    ]

charge-Recorded :
    (env : ImEnv) (sender_id receiver_id request_id : ℕ) (t : ImTables)
    → Recorded sender_id request_id (charge_im_text_message env sender_id receiver_id request_id t)
unfolding charge_im_text_message
charge-Recorded env sender_id receiver_id request_id t =
    if-both (Recorded sender_id request_id) (sender_id == receiver_id) (t, self_chat) _ (λ h. cc)
      (both (normal_user sender_id t.users) (normal_user receiver_id t.users))
  where
    both :
        (sender receiver : Option AppUser)
        → Recorded sender_id request_id
            (with_users sender receiver env sender_id receiver_id request_id t)
    both none receiver = λ h. cc
    both (some sender) none = λ h. cc
    both (some sender) (some receiver) =
        charge_between-Recorded env sender_id receiver_id request_id sender receiver t

-- Once a request is answered as charged, the sender's repeating it, to whomever, at whatever time
-- and under whatever settings, changes no table.
pub charges_once :
    (env env' : ImEnv) (sender_id receiver_id receiver_id' request_id : ℕ) (price income : ℤ)
    (t : ImTables)
    → let r = charge_im_text_message env sender_id receiver_id request_id t in
      r.1 ≡ charged price income
      → (charge_im_text_message env' sender_id receiver_id' request_id r.0).0 ≡ r.0
charges_once env env' sender_id receiver_id receiver_id' request_id price income t h =
    let (c, found) = charge-Recorded env sender_id receiver_id request_id t (ap is_charged h) in
    recorded-Stays env' sender_id receiver_id' request_id
      (charge_im_text_message env sender_id receiver_id request_id t).0 c found
