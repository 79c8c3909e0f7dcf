-- ===== src/ImText/Budget.antt =====
-- What the messages of a user cost.
use new1v.Prelude.{
  ℕ, ◌≡◌, inl, inr, refl, subst, Option, none, some, List, [], ◌∷◌, ◌==◌, if◌then◌else◌, arith,
  Bool-cases, Option-cases, if-both, ==_iff,
}
use new1v.Prelude.Int.{ℤ, pos, ltb_ℤ, ◌+ℤ◌, int_eqs}
use new1v.Prelude.Dict.{lookup}
use new1v.Records.{AppUser}
use new1v.Users.{Users, credit_diamonds}
use new1v.Users.Balance.{coins, Pays, charge_coins_lem, charge_coins_missing, credit_diamonds-coins}
use new1v.Fee.{cents}
use new1v.CallApi.Dialing.{normal_user}
use new1v.ImText.{
  ImTables, ImEnv, ImTextReply, self_chat, ImTextMessageChargeRecord, ImTextBillingConfig,
  find_charge, book_charge, pay_message, charge_between, with_users, charge_im_text_message,
  receiver_income, new_charge,
}

-- The prices recorded for a sender, in hundredths.
abbrev price_of : ℕ → ImTextMessageChargeRecord → ℤ
price_of k r = if r.sender_id == k then cents r.price else pos 0

unfoldable pub spent : ℕ → List ImTextMessageChargeRecord → ℤ
spent k [] = pos 0
spent k (r ∷ records) = price_of k r +ℤ spent k records

-- What a user has, and has spent on messages.
abbrev pub budget : ℕ → ImTables → ℤ
budget k t = coins k t.users +ℤ spent k t.records

abbrev KeepsBudget : ℕ → ImTables → ImTables × ImTextReply → Type 0
KeepsBudget k t r = budget k r.0 ≡ budget k t

credited-coins :
    (k receiver : ℕ) (income : ℤ) (users : Users)
    → coins k (if ltb_ℤ (pos 0) income then credit_diamonds receiver income users else users)
      ≡ coins k users
credited-coins k receiver income users =
    if-both (λ (x : Users). coins k x ≡ coins k users) (ltb_ℤ (pos 0) income)
      (credit_diamonds receiver income users) users (credit_diamonds-coins receiver k income users)
      refl

book_charge-budget :
    (k sender_id receiver_id request_id : ℕ) (config : ImTextBillingConfig) (income : ℤ)
    (users' : Users) (t : ImTables)
    → Pays sender_id (cents config.price) t.users users'
    → budget k (book_charge sender_id receiver_id request_id config income users' t) ≡ budget k t
unfolding spent
book_charge-budget k sender_id receiver_id request_id config income users' t p =
    elim (Bool-cases (sender_id == k)) [
      | inl e ↦
          let mine : price_of k (new_charge sender_id receiver_id request_id config income)
              ≡ cents config.price =
            ground (arith, e) in
          let paid : coins k users' +ℤ cents config.price ≡ coins k t.users =
            subst (λ x. coins x users' +ℤ cents config.price ≡ coins x t.users)
              ((==_iff sender_id k).0 e) p.payer in
          omega (int_eqs, credited-coins k receiver_id income users', mine, paid)
      | inr e ↦
          let free : price_of k (new_charge sender_id receiver_id request_id config income)
              ≡ pos 0 =
            ground (arith, e) in
          let same : coins k users' ≡ coins k t.users = p.others k (ground (arith, e)) in
          omega (int_eqs, credited-coins k receiver_id income users', free, same)
    ]

pay_message-budget :
    (k sender_id receiver_id request_id : ℕ) (config : ImTextBillingConfig) (income : ℤ)
    (t : ImTables)
    → KeepsBudget k t (pay_message sender_id receiver_id request_id config income t)
unfolding pay_message
pay_message-budget k sender_id receiver_id request_id config income t =
    elim (Option-cases (lookup sender_id t.users)) [
      | inl e ↦ rw (charge_coins_missing sender_id (cents config.price) t.users e) refl
      | inr (u, e) ↦ elim (charge_coins_lem sender_id (cents config.price) t.users u e) [
        | inl (paid, _, p) ↦
            rw paid (book_charge-budget k sender_id receiver_id request_id config income _ t p)
        | inr (same, _) ↦ rw same refl
      ]
    ]

charge_between-budget :
    (k : ℕ) (env : ImEnv) (sender_id receiver_id request_id : ℕ) (sender receiver : AppUser)
    (t : ImTables)
    → KeepsBudget k t (charge_between env sender_id receiver_id request_id sender receiver t)
unfolding charge_between
charge_between-budget k env sender_id receiver_id request_id sender receiver t =
    elim (Option-cases (find_charge sender_id request_id t.records)) [
      | inr (r, e) ↦ rw (e, charge_between) refl
      | inl e ↦
          rw (e, charge_between)
            (if-both (KeepsBudget k t) _
              (pay_message sender_id receiver_id request_id env.config
                (receiver_income env.config receiver) t)
              _
              (pay_message-budget k sender_id receiver_id request_id env.config
                (receiver_income env.config receiver) t)
              refl)
    ]

with_users-budget :
    (k : ℕ) (sender receiver : Option AppUser) (env : ImEnv) (sender_id receiver_id request_id : ℕ)
    (t : ImTables)
    → KeepsBudget k t (with_users sender receiver env sender_id receiver_id request_id t)
with_users-budget k none receiver env sender_id receiver_id request_id t = refl
with_users-budget k (some sender) none env sender_id receiver_id request_id t = refl
with_users-budget k (some sender) (some receiver) env sender_id receiver_id request_id t =
    charge_between-budget k env sender_id receiver_id request_id sender receiver t

-- A message, charged, free or refused on any ground: for every user, the coins and the recorded
-- prices of the messages sent keep their sum.
pub charge_im_text_message-budget :
    (env : ImEnv) (sender_id receiver_id request_id k : ℕ) (t : ImTables)
    → budget k (charge_im_text_message env sender_id receiver_id request_id t).0 ≡ budget k t
unfolding charge_im_text_message
charge_im_text_message-budget env sender_id receiver_id request_id k t =
    if-both (KeepsBudget k t) (sender_id == receiver_id) (t, self_chat) _ refl
      (with_users-budget k (normal_user sender_id t.users) (normal_user receiver_id t.users) env
        sender_id receiver_id request_id t)
