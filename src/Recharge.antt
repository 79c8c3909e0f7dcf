-- ===== src/Recharge.antt =====
-- Recharges: `recharge_create` and `recharge_callback` of backend/app/api/v1/app/wallet.py. An
-- order number is a key, a time is an instant in microseconds, and the Redis keys that guard the
-- callback are a table of the instants at which they expire.
pub mod Ledger
pub mod Once
pub mod Lockout
use new1v.Prelude.{
  ℕ, zero, suc, ◌+◌, ◌*◌, Bool, true, false, not, ◌&&◌, Option, none, some, ◌∷◌, ltb, ◌==◌,
  if◌then◌else◌, is_some,
}
use new1v.Prelude.Int.{ℤ, pos}
use new1v.Prelude.Dict.{Dict, lookup, alter}
use new1v.Users.{Users, credit_coins}

pub data OrderStatus : Type 0 where
  pending paid : OrderStatus

-- `amount` is whole coins; the form takes 6 to 100000.
pub record RechargeOrder : Type 0 where
  pub user_id : ℕ
  pub amount : ℕ
  pub status : OrderStatus

pub record RechargeTables : Type 0 where
  pub users : Users
  pub orders : Dict RechargeOrder
  pub idempotent : Dict ℕ

-- The switch of the settings, and whether Redis answers.
pub record CallbackEnv : Type 0 where
  pub enable_mock_callback : Bool
  pub redis_up : Bool

pub data RechargeReply : Type 0 where
  created : ℕ → RechargeReply
  recharged no_order_no closed in_progress not_found forbidden : RechargeReply

-- The candidates for the number of a new order, from the `i`-th on, and the first that is free.
unfoldable pub find_order_no : ℕ → ℕ → (ℕ → ℕ) → Dict RechargeOrder → Option ℕ
find_order_no zero i candidate orders = none
find_order_no (suc tries) i candidate orders =
    let rest = find_order_no tries (i + 1) candidate orders in
    if is_some (lookup (candidate i) orders) then rest else some (candidate i)

abbrev pub new_order : ℕ → ℕ → RechargeOrder
new_order user_id amount = record { user_id = user_id; amount = amount; status = pending }

abbrev pub insert_order : ℕ → RechargeOrder → RechargeTables → RechargeTables
insert_order order_no order t = record t { orders = (order_no, order) ∷ t.orders }

unfoldable pub recharge_create :
    (candidate : ℕ → ℕ) → (user_id amount : ℕ) → RechargeTables → RechargeTables × RechargeReply
recharge_create candidate user_id amount t = elim (find_order_no 3 0 candidate t.orders) [
  | none ↦ (t, no_order_no)
  | some order_no ↦ (insert_order order_no (new_order user_id amount) t, created order_no)
]

abbrev pub callback_ttl : ℕ
callback_ttl = 3600 * 1000000

abbrev still_held : ℕ → Option ℕ → Bool
still_held now none = false
still_held now (some expires) = ltb now expires

unfoldable pub is_held : ℕ → ℕ → Dict ℕ → Bool
is_held order_no now idempotent = still_held now (lookup order_no idempotent)

-- `set(key, "1", nx=True, ex=3600)`, once the key is seen to be free.
abbrev pub hold_key : ℕ → ℕ → RechargeTables → RechargeTables
hold_key order_no now t = record t { idempotent = (order_no, now + callback_ttl) ∷ t.idempotent }

abbrev pub is_pending_order : OrderStatus → Bool
is_pending_order pending = true
is_pending_order paid = false

abbrev mark_paid : RechargeOrder → RechargeOrder
mark_paid order = record order { status = paid }

-- Coins are in hundredths. A user without a row is updated in vain.
unfoldable pub pay_order : ℕ → RechargeOrder → RechargeTables → RechargeTables
pay_order order_no order t = record t {
  users = credit_coins order.user_id (pos (order.amount * 100)) t.users;
  orders = alter order_no mark_paid t.orders;
}

-- The transaction, with the row that `filter(order_no=…, status="pending")` finds.
unfoldable pub settle_found :
    Option RechargeOrder → (order_no user_id : ℕ) → RechargeTables → RechargeTables × RechargeReply
settle_found none order_no user_id t = (t, not_found)
settle_found (some order) order_no user_id t =
    if not (is_pending_order order.status)
    then (t, not_found)
    else if not (order.user_id == user_id)
    then (t, forbidden)
    else (pay_order order_no order t, recharged)

unfoldable pub settle_order :
    (order_no user_id : ℕ) → RechargeTables → RechargeTables × RechargeReply
settle_order order_no user_id t = settle_found (lookup order_no t.orders) order_no user_id t

unfoldable pub recharge_callback :
    CallbackEnv → (order_no user_id now : ℕ) → RechargeTables → RechargeTables × RechargeReply
recharge_callback env order_no user_id now t =
    if not env.enable_mock_callback
    then (t, closed)
    else if env.redis_up && is_held order_no now t.idempotent
    then (t, in_progress)
    else settle_order order_no user_id (if env.redis_up then hold_key order_no now t else t)
