-- ===== src/Tests/Orders.antt =====
-- The theorems on recharges and VIP orders, applied to orders of Ann's.

use new1v.Prelude.{◌+◌, ◌≡◌, refl, true, none, [], ◌∷◌, arith}
use new1v.Prelude.Dict.{lookup}
use new1v.Recharge
use new1v.Recharge.{
  RechargeOrder, RechargeTables, CallbackEnv, recharged, forbidden, in_progress, hold_key,
  pay_order, recharge_callback, recharge_create, find_order_no, created, is_held, settle_order,
  settle_found,
}
use new1v.Recharge.Ledger.{Credits, recharge_callback-Credits}
use new1v.Recharge.Once.{credits_once}
use new1v.Recharge.Lockout.{foreign_callback-blocks}
use new1v.Vip
use new1v.Vip.{
  VipOrder, VipTables, activated, day, resolve_next_vip_expires_at, vip_order_callback,
  mark_vip_order_paid, pay_found, extend_vip,
}
use new1v.Vip.Expiry.{Activated, vip_order_callback-Activated}
use new1v.Tests.Data.{ann, users}

abbrev order : RechargeOrder
order = record { user_id = 1; amount = 600; status = Recharge.OrderStatus.pending }

abbrev tables : RechargeTables
tables = record { users = users; orders = (77, order) ∷ []; idempotent = [] }

abbrev mock : CallbackEnv
mock = record { enable_mock_callback = true; redis_up = true }

-- The second candidate is the first number that is free.
creates_second : (recharge_create (λ i. i + 77) 1 600 tables).1 ≡ created 78
unfolding recharge_create find_order_no lookup
creates_second = refl

recharge_callback-Credits_example : Credits 1 tables (recharge_callback mock 77 1 5000 tables).0
unfolding lookup
recharge_callback-Credits_example = recharge_callback-Credits mock 77 1 5000 1 tables ann refl

credits_once_example :
    let t = (recharge_callback mock 77 1 5000 tables).0 in
    ((recharge_callback mock 77 2 9000000000 t).0.users ≡ t.users)
    × ((recharge_callback mock 77 2 9000000000 t).0.orders ≡ t.orders)
unfolding recharge_callback is_held settle_order settle_found lookup
credits_once_example = credits_once mock mock 77 1 2 5000 9000000000 tables refl

foreign_callback-blocks_example :
    ((recharge_callback mock 77 2 5000 tables).1 ≡ forbidden)
    × (recharge_callback mock 77 1 6000 (recharge_callback mock 77 2 5000 tables).0
        ≡ (hold_key 77 5000 tables, in_progress))
unfolding is_held lookup
foreign_callback-blocks_example =
    foreign_callback-blocks mock 77 2 5000 tables order (refl, refl) refl refl (omega arith) refl
      6000 (omega arith)

abbrev vip_order : VipOrder
vip_order = record {
  user_id = 1;
  amount = 1990;
  duration_days = 30;
  status = Vip.VipOrderStatus.pending;
  paid_at = none;
  before_vip_expires_at = none;
  after_vip_expires_at = none;
}

abbrev vip_tables : VipTables
vip_tables = record { users = users; orders = (88, vip_order) ∷ [] }

vip_order_callback-Activated_example :
    Activated 1 88 5000 2592000005000 vip_tables (vip_order_callback true 88 1 5000 vip_tables).0
unfolding vip_order_callback mark_vip_order_paid pay_found extend_vip resolve_next_vip_expires_at
    lookup
vip_order_callback-Activated_example =
    vip_order_callback-Activated true 88 1 5000 2592000005000 vip_tables refl
