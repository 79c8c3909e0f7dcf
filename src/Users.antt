-- ===== src/Users.antt =====
-- The user table, and the statements that the code runs on a user's balances. `filter(…).update(…)`
-- is one conditional statement, and its count says whether a row matched.
pub mod Balance
pub mod Charge
use new1v.Prelude.{ℕ, Bool, true, false, Option, none, some, if◌then◌else◌}
use new1v.Prelude.Int.{ℤ, ◌+ℤ◌, ◌-ℤ◌, leb_ℤ}
use new1v.Prelude.Dict.{Dict, lookup, alter}
use new1v.Records.{AppUser}

abbrev pub Users : Type 0
Users = Dict AppUser

abbrev add_to_coins : ℤ → AppUser → AppUser
add_to_coins amount u = record u { coins = u.coins +ℤ amount }

abbrev take_from_coins : ℤ → AppUser → AppUser
take_from_coins amount u = record u { coins = u.coins -ℤ amount }

abbrev put_coins : ℤ → AppUser → AppUser
put_coins amount u = record u { coins = amount }

abbrev add_to_diamonds : ℤ → AppUser → AppUser
add_to_diamonds amount u = record u { diamonds = u.diamonds +ℤ amount }

-- `update(coins=F("coins") + amount)`
unfoldable pub credit_coins : ℕ → ℤ → Users → Users
credit_coins id amount users = alter id (add_to_coins amount) users

-- `filter(id=…, coins__gte=amount).update(coins=F("coins") - amount)`
unfoldable pub charge_coins : ℕ → ℤ → Users → Users × Bool
charge_coins id amount users = elim (lookup id users) [
  | none ↦ (users, false)
  | some u ↦
      if leb_ℤ amount u.coins
      then (alter id (take_from_coins amount) users, true)
      else (users, false)
]

-- `user.save(update_fields=["coins"])`
unfoldable pub save_coins : ℕ → ℤ → Users → Users
save_coins id amount users = alter id (put_coins amount) users

-- `update(diamonds=F("diamonds") + amount)`
unfoldable pub credit_diamonds : ℕ → ℤ → Users → Users
credit_diamonds id amount users = alter id (add_to_diamonds amount) users
