-- ===== src/Vip/Expiry.antt =====
-- How long an order makes its user a VIP.
use new1v.Prelude.{
  ℕ, ◌+◌, ◌≤◌, ◌≡◌, ◌≢◌, ◌*◌, ◌⊎◌, ltb, refl, Bool, true, not, Option, none, some, ◌==◌, arith, inl,
  inr, Bool-cases, Option-cases, if-both, ==_iff, subst,
}
use new1v.Prelude.Dict.{lookup, alter, lookup-alter, lookup-alter_self}
use new1v.Records.{AppUser}
use new1v.Vip.{
  VipOrder, VipTables, VipReply, activated, closed, no_login, not_found, no_user, mark_vip_paid,
  is_unpaid, resolve_next_vip_expires_at, set_expiry, extend_vip, pay_found, mark_vip_order_paid,
  vip_order_callback,
}

-- A second order, paid before the time of the first has run out, adds its days: nothing is lost, and
-- the two are worth one order for the sum of their days.
pub vip_days_add :
    (current : Option ℕ) (d e now later : ℕ)
    → later ≤ resolve_next_vip_expires_at current d now
    → resolve_next_vip_expires_at (some (resolve_next_vip_expires_at current d now)) e later
      ≡ resolve_next_vip_expires_at current (d + e) now
unfolding resolve_next_vip_expires_at
vip_days_add none d e now later h = ground (arith, h)
vip_days_add (some expires) d e now later h = ground (arith, h)

-- `start` is the later of now and the expiry so far.
abbrev pub IsStart : Option ℕ → (now start : ℕ) → Type 0
IsStart none now start = start ≡ now
IsStart (some expires) now start =
    (now ≤ start) × (expires ≤ start) × ((start ≡ now) ⊎ (start ≡ expires))

-- The microseconds of some days from that start on.
abbrev pub IsExtended : Option ℕ → (days now after : ℕ) → Type 0
IsExtended current days now after =
    (start : ℕ) × IsStart current now start × (after ≡ start + days * (24 * 3600 * 1000000))

resolve_next_vip_expires_at-IsExtended :
    (current : Option ℕ) (days now : ℕ)
    → IsExtended current days now (resolve_next_vip_expires_at current days now)
unfolding resolve_next_vip_expires_at
resolve_next_vip_expires_at-IsExtended none days now = (now, refl, refl)
resolve_next_vip_expires_at-IsExtended (some expires) days now =
    elim (Bool-cases (ltb now expires)) [
      | inl e ↦ rw e (expires, (ground (arith, e), omega arith, inr refl), refl)
      | inr e ↦ rw e (now, (omega arith, ground (arith, e), inl refl), refl)
    ]

-- From `t` to `t'` the order was paid: user k is a VIP up to `after`, and no other user was touched.
pub record Activated (k order_no now after : ℕ) (t t' : VipTables) : Type 0 where
  pub order : VipOrder
  pub user : AppUser
  pub ordered : lookup order_no t.orders ≡ some order
  pub unpaid : is_unpaid order.status ≡ true
  pub own : order.user_id ≡ k
  pub row : lookup k t.users ≡ some user
  pub extended : IsExtended user.vip_expires_at order.duration_days now after
  pub granted : lookup k t'.users ≡ some (set_expiry after user)
  pub others : (j : ℕ) → j ≢ k → lookup j t'.users ≡ lookup j t.users
  pub marked : lookup order_no t'.orders ≡ some (mark_vip_paid now user.vip_expires_at after order)

abbrev Activates : (k order_no now : ℕ) → VipTables → VipTables × VipReply → Type 0
Activates k order_no now t r =
    (after : ℕ) → r.1 ≡ activated after → Activated k order_no now after t r.0

activated-eq : {a b : ℕ} → activated a ≡ activated b → a ≡ b
activated-eq h = cc

extend_vip-Activates :
    (order_no now : ℕ) (order : VipOrder) (t : VipTables)
    → lookup order_no t.orders ≡ some order
    → is_unpaid order.status ≡ true
    → Activates order.user_id order_no now t
        (extend_vip (lookup order.user_id t.users) order_no now order t)
unfolding extend_vip
extend_vip-Activates order_no now order t there unpaid after =
    elim (Option-cases (lookup order.user_id t.users)) [
      | inl e ↦ rw e (λ (h : no_user ≡ activated after). cc)
      | inr (u, e) ↦ rw e (λ h.
          subst
            (λ x. Activated order.user_id order_no now x t (record {
              users = alter order.user_id (set_expiry (next u)) t.users;
              orders = alter order_no (mark_vip_paid now u.vip_expires_at (next u)) t.orders;
            }))
            (activated-eq h) (done u e))
    ]
  where
    next : AppUser → ℕ
    next u = resolve_next_vip_expires_at u.vip_expires_at order.duration_days now

    done :
        (u : AppUser)
        → lookup order.user_id t.users ≡ some u
        → Activated order.user_id order_no now (next u) t (record {
          users = alter order.user_id (set_expiry (next u)) t.users;
          orders = alter order_no (mark_vip_paid now u.vip_expires_at (next u)) t.orders;
        })
    done u e = record {
      order = order;
      user = u;
      ordered = there;
      unpaid = unpaid;
      own = refl;
      row = e;
      extended = resolve_next_vip_expires_at-IsExtended u.vip_expires_at order.duration_days now;
      granted = lookup-alter_self order.user_id (set_expiry (next u)) t.users u e;
      others = λ j ne. ground (arith, lookup-alter j order.user_id (set_expiry (next u)) t.users);
      marked =
          lookup-alter_self order_no (mark_vip_paid now u.vip_expires_at (next u)) t.orders order
            there;
    }

pay_found-Activates :
    (order_no user_id now : ℕ) (t : VipTables) (o : Option VipOrder)
    → lookup order_no t.orders ≡ o
    → Activates user_id order_no now t (pay_found o order_no user_id now t)
unfolding pay_found
pay_found-Activates order_no user_id now t none _ = λ after (h : not_found ≡ activated after). cc
pay_found-Activates order_no user_id now t (some order) there =
    elim (Bool-cases (is_unpaid order.status)) [
      | inr e ↦ rw e (λ after (h : not_found ≡ activated after). cc)
      | inl e ↦ elim (Bool-cases (order.user_id == user_id)) [
        | inr f ↦ rw (e, f) (λ after (h : not_found ≡ activated after). cc)
        | inl f ↦
            rw (e, f)
              (subst
                (λ x.
                  Activates x order_no now t
                    (extend_vip (lookup order.user_id t.users) order_no now order t))
                ((==_iff order.user_id user_id).0 f)
                (extend_vip-Activates order_no now order t there e))
      ]
    ]

-- A callback that answers as activated has paid an order of the caller's that was to be paid: the
-- caller is a VIP for the days of the order beyond the later of now and the expiry so far, the order
-- records both expiries, and no other user's row is touched.
pub vip_order_callback-Activated :
    (enabled : Bool) (order_no user_id now after : ℕ) (t : VipTables)
    → (vip_order_callback enabled order_no user_id now t).1 ≡ activated after
    → Activated user_id order_no now after t (vip_order_callback enabled order_no user_id now t).0
unfolding vip_order_callback mark_vip_order_paid
vip_order_callback-Activated enabled order_no user_id now after t =
    if-both (Activates user_id order_no now t) (not enabled) (t, closed) _ (λ a h. cc)
      (if-both (Activates user_id order_no now t) (user_id == 0) (t, no_login) _ (λ a h. cc)
        (pay_found-Activates order_no user_id now t (lookup order_no t.orders) refl))
      after
