-- ===== src/Vip.antt =====
-- VIP orders: backend/app/services/vip_service.py and the handlers of
-- backend/app/api/v1/app/vip.py. An order number is a key, an instant a number of microseconds.
pub mod Expiry
pub mod Once
use new1v.Prelude.{
  ℕ, zero, suc, ◌+◌, ◌*◌, Bool, true, false, not, Option, none, some, List, [], ◌∷◌, ltb, ◌==◌,
  if◌then◌else◌, is_some,
}
use new1v.Prelude.Int.{ℤ, pos, pos_part, ltb_ℤ}
use new1v.Prelude.Dict.{Dict, lookup, alter}
use new1v.Records.{AppUser}
use new1v.Users.{Users}

-- The amount is in cents of money.
pub record VipPackage : Type 0 where
  pub amount : ℕ
  pub duration_days : ℕ

pub data PayChannel : Type 0 where
  wx alipay other : PayChannel

pub data VipOrderStatus : Type 0 where
  pending paid : VipOrderStatus

pub record VipOrder : Type 0 where
  pub user_id : ℕ
  pub amount : ℕ
  pub duration_days : ℕ
  pub status : VipOrderStatus
  pub paid_at : Option ℕ
  pub before_vip_expires_at : Option ℕ
  pub after_vip_expires_at : Option ℕ

pub record VipTables : Type 0 where
  pub users : Users
  pub orders : Dict VipOrder

pub data VipReply : Type 0 where
  created : ℕ → VipReply
  activated : ℕ → VipReply
  bad_channel no_package no_order_no closed no_login not_found no_user : VipReply

abbrev pub day : ℕ
day = 86400 * 1000000

abbrev current_base : Option ℕ → ℕ → ℕ
current_base none now = now
current_base (some expires) now = if ltb now expires then expires else now

unfoldable pub resolve_next_vip_expires_at : Option ℕ → (duration_days now : ℕ) → ℕ
resolve_next_vip_expires_at current duration_days now =
    current_base current now + duration_days * day

unfoldable pub nth_package : ℕ → List VipPackage → Option VipPackage
nth_package i [] = none
nth_package zero (p ∷ packages) = some p
nth_package (suc i) (p ∷ packages) = nth_package i packages

-- The first candidate that no order has.
unfoldable pub free_order_no : ℕ → ℕ → (ℕ → ℕ) → Dict VipOrder → Option ℕ
free_order_no zero i candidate orders = none
free_order_no (suc tries) i candidate orders =
    let rest = free_order_no tries (i + 1) candidate orders in
    if is_some (lookup (candidate i) orders) then rest else some (candidate i)

abbrev is_known : PayChannel → Bool
is_known wx = true
is_known alipay = true
is_known other = false

abbrev new_vip_order : ℕ → VipPackage → VipOrder
new_vip_order user_id vip_package = record {
  user_id = user_id;
  amount = vip_package.amount;
  duration_days = vip_package.duration_days;
  status = pending;
  paid_at = none;
  before_vip_expires_at = none;
  after_vip_expires_at = none;
}

abbrev insert_numbered : Option ℕ → VipOrder → VipTables → VipTables × VipReply
insert_numbered none order t = (t, no_order_no)
insert_numbered (some order_no) order t =
    (record t { orders = (order_no, order) ∷ t.orders }, created order_no)

abbrev order_package : Option VipPackage → (ℕ → ℕ) → ℕ → VipTables → VipTables × VipReply
order_package none candidate user_id t = (t, no_package)
order_package (some vip_package) candidate user_id t =
    insert_numbered (free_order_no 3 0 candidate t.orders) (new_vip_order user_id vip_package) t

unfoldable pub create_vip_order :
    (candidate : ℕ → ℕ)
    → List VipPackage
    → (user_id : ℕ) → (package_index : ℤ) → PayChannel
    → VipTables
    → VipTables × VipReply
create_vip_order candidate packages user_id package_index channel t =
    if not (is_known channel)
    then (t, bad_channel)
    else if ltb_ℤ package_index (pos 0)
    then (t, no_package)
    else order_package (nth_package (pos_part package_index) packages) candidate user_id t

abbrev pub set_expiry : ℕ → AppUser → AppUser
set_expiry after u = record u { vip_expires_at = some after }

abbrev pub mark_vip_paid : (now : ℕ) → (before : Option ℕ) → (after : ℕ) → VipOrder → VipOrder
mark_vip_paid now before after order = record order {
  status = paid;
  paid_at = some now;
  before_vip_expires_at = before;
  after_vip_expires_at = some after;
}

abbrev pub is_unpaid : VipOrderStatus → Bool
is_unpaid pending = true
is_unpaid paid = false

-- The user's row is locked.
unfoldable pub extend_vip :
    Option AppUser → (order_no now : ℕ) → VipOrder → VipTables → VipTables × VipReply
extend_vip none order_no now order t = (t, no_user)
extend_vip (some u) order_no now order t =
    let after = resolve_next_vip_expires_at u.vip_expires_at order.duration_days now in
    (
      record {
        users = alter order.user_id (set_expiry after) t.users;
        orders = alter order_no (mark_vip_paid now u.vip_expires_at after) t.orders;
      },
      activated after,
    )

-- The row with this number, to be paid and of this user.
unfoldable pub pay_found :
    Option VipOrder → (order_no user_id now : ℕ) → VipTables → VipTables × VipReply
pay_found none order_no user_id now t = (t, not_found)
pay_found (some order) order_no user_id now t =
    if not (is_unpaid order.status)
    then (t, not_found)
    else if not (order.user_id == user_id)
    then (t, not_found)
    else extend_vip (lookup order.user_id t.users) order_no now order t

unfoldable pub mark_vip_order_paid : (order_no user_id now : ℕ) → VipTables → VipTables × VipReply
mark_vip_order_paid order_no user_id now t =
    pay_found (lookup order_no t.orders) order_no user_id now t

unfoldable pub vip_order_callback :
    (enable_mock_callback : Bool) → (order_no user_id now : ℕ) → VipTables → VipTables × VipReply
vip_order_callback enable_mock_callback order_no user_id now t =
    if not enable_mock_callback
    then (t, closed)
    else if user_id == 0
    then (t, no_login)
    else mark_vip_order_paid order_no user_id now t
