-- ===== src/CallApi/Lifecycle/Answered.antt =====
-- What answering a call makes of it: who pays, and whether the call connects.
use new1v.Prelude.{
  ℕ, ◌≡◌, ◌⊎◌, inl, inr, refl, Bool, true, false, Option, some, none, ltb, arith, Bool-cases,
}
use mathlib.Core.Option
use new1v.Prelude.Int.{ℤ, pos, ltb_ℤ, ◌≤ℤ◌}
use new1v.Prelude.Dict.{lookup}
use new1v.Records.{UserStatus, normal, banned, AppUser, CallRecord, ongoing, ended, balance_empty}
use new1v.Users.{Users}
use new1v.Billing.{resolve_payer_id}
use new1v.Fee.{cents}
use new1v.Database.{Database}
use new1v.CallApi.Reply.{Reply, success, fail, insufficient_coins}
use new1v.CallApi.Dialing.{keep_normal, normal_user}
use new1v.CallApi.Answer.{
  AnswerEnv, put_call, certified_in, payer_of, payer_is_short, close_call, connect_call,
  refuse_unpaid, answer_call,
}

-- Who pays: the other party of the only certified one, the caller of two, and nobody, 0, of none.
abbrev pub WhoPays : (caller_certified callee_certified : Bool) → (caller callee p : ℕ) → Type 0
WhoPays false false caller callee p = p ≡ 0
WhoPays true false caller callee p = p ≡ callee
WhoPays false true caller callee p = p ≡ caller
WhoPays true true caller callee p = p ≡ caller

-- Nobody pays, the call is free of charge, or the payer is a normal user with coins for a minute.
abbrev pub CanPay : (p : ℕ) → (price : ℤ) → Users → Type 0
CanPay p price users =
    (p ≡ 0)
    ⊎ ((price ≤ℤ pos 0)
        ⊎ ((u : AppUser) × (lookup p users ≡ some u)
            × (u.status ≡ normal)
            × (cents price ≤ℤ u.coins)))

pub record IsConnected (env : AnswerEnv) (p : ℕ) (c row : CallRecord) : Type 0 where
  pub status : row.status ≡ ongoing
  pub payer : row.payer_user_id ≡ some p
  pub parties : (row.caller_id ≡ c.caller_id) × (row.callee_id ≡ c.callee_id)
  pub price : row.call_price ≡ c.call_price
  pub since : row.connected_at ≡ some env.now
  pub unbilled : (row.deducted_amount ≡ pos 0) × (row.deducted_minutes ≡ pos 0)
  pub not_over : (row.ended_at ≡ none) × (row.end_reason ≡ none)

pub record IsRefused (env : AnswerEnv) (p : ℕ) (row : CallRecord) : Type 0 where
  pub status : row.status ≡ ended
  pub payer : row.payer_user_id ≡ some p
  pub over : (row.ended_at ≡ some env.now) × (row.end_reason ≡ some balance_empty)

abbrev pub IsOutcome : AnswerEnv → (p : ℕ) → CallRecord → Users → CallRecord → Reply → Type 0
IsOutcome env p c users row reply =
    (CanPay p c.call_price users × IsConnected env p c row × (reply ≡ success))
    ⊎ (¬ CanPay p c.call_price users × IsRefused env p row × (reply ≡ fail insufficient_coins))

-- The row of the call, and nothing else, is written.
pub record IsAnswered (env : AnswerEnv) (id : ℕ) (c : CallRecord) (db : Database)
    (r : Database × Reply) : Type 0 where
  pub payer : ℕ
  pub pays :
      WhoPays
        (certified_in db.users c.caller_id)
        (certified_in db.users c.callee_id)
        c.caller_id
        c.callee_id
        payer
  pub row : CallRecord
  pub written : r.0 ≡ put_call id row db
  pub outcome : IsOutcome env payer c db.users row r.1

resolve_payer_id-WhoPays :
    (b d : Bool) (caller callee : ℕ)
    → WhoPays b d caller callee (resolve_payer_id caller callee b d)
unfolding resolve_payer_id
resolve_payer_id-WhoPays true true caller callee = refl
resolve_payer_id-WhoPays true false caller callee = refl
resolve_payer_id-WhoPays false true caller callee = refl
resolve_payer_id-WhoPays false false caller callee = refl

-- The row of a payer who must pay.
abbrev HasCoins : Option AppUser → ℤ → Type 0
HasCoins o price = (u : AppUser) × (o ≡ some u) × (u.status ≡ normal) × (cents price ≤ℤ u.coins)

abbrev lacks_coins : ℤ → Option AppUser → Bool
lacks_coins price none = true
lacks_coins price (some u) = ltb_ℤ u.coins (cents price)

lacks_coins-false :
    (price : ℤ) (o : Option AppUser)
    → lacks_coins price (Option.bind o keep_normal) ≡ false
    → HasCoins o price
unfolding Option.bind
lacks_coins-false price none h = cc
lacks_coins-false price (some u) h = by_status u.status refl
  where
    by_status : (s : UserStatus) → u.status ≡ s → HasCoins (some u) price
    by_status normal e = (u, refl, e, ground (arith, h, e))
    by_status banned e = absurd (ground (arith, h, e))

lacks_coins-true :
    (price : ℤ) (o : Option AppUser)
    → lacks_coins price (Option.bind o keep_normal) ≡ true
    → HasCoins o price
    → ⊥
unfolding Option.bind
lacks_coins-true price o h (u, e, n, le) = ground (arith, h, e, n, le)

payer_is_short-false :
    (p : ℕ) (price : ℤ) (users : Users)
    → payer_is_short p price users ≡ false
    → CanPay p price users
unfolding payer_is_short normal_user
payer_is_short-false p price users h = elim (Bool-cases (ltb 0 p)) [
  | inr e ↦ inl (ground (arith, e))
  | inl e ↦ elim (Bool-cases (ltb_ℤ (pos 0) price)) [
    | inr f ↦ inr (inl (ground (arith, f)))
    | inl f ↦ inr (inr (lacks_coins-false price (lookup p users) (ground (arith, h, e, f))))
  ]
]

payer_is_short-true :
    (p : ℕ) (price : ℤ) (users : Users)
    → payer_is_short p price users ≡ true
    → ¬ CanPay p price users
unfolding payer_is_short normal_user
payer_is_short-true p price users h (inl z) = ground (arith, h, z)
payer_is_short-true p price users h (inr (inl free)) = ground (arith, h, free)
payer_is_short-true p price users h (inr (inr coins)) =
    lacks_coins-true price (lookup p users) (ground (arith, h)) coins

pub answer_call-IsAnswered :
    (env : AnswerEnv) (id : ℕ) (c : CallRecord) (db : Database)
    → IsAnswered env id c db (answer_call env id c db)
unfolding answer_call payer_of connect_call refuse_unpaid close_call
answer_call-IsAnswered env id c db =
    let p =
      resolve_payer_id c.caller_id c.callee_id (certified_in db.users c.caller_id)
        (certified_in db.users c.callee_id) in
    let pays =
      resolve_payer_id-WhoPays (certified_in db.users c.caller_id)
        (certified_in db.users c.callee_id) c.caller_id c.callee_id in
    elim (Bool-cases (payer_is_short p c.call_price db.users)) [
      | inl e ↦ rw e (record {
        payer = p;
        pays = pays;
        row = refuse_unpaid p env.now c;
        written = refl;
        outcome = inr (
          payer_is_short-true p c.call_price db.users e,
          record { status = refl; payer = refl; over = (refl, refl) },
          refl,
        );
      })
      | inr e ↦ rw e (record {
        payer = p;
        pays = pays;
        row = connect_call env p c;
        written = refl;
        outcome = inl (
          payer_is_short-false p c.call_price db.users e,
          record {
            status = refl;
            payer = refl;
            parties = (refl, refl);
            price = refl;
            since = refl;
            unbilled = (refl, refl);
            not_over = (refl, refl);
          },
          refl,
        );
      })
    ]
