-- ===== src/Users/Balance.antt =====
-- What each statement does to every user's balances.
use native.Mathlib.Decide.{ℕ_discrete}
use new1v.Prelude.{
  ℕ, ◌≡◌, ◌≢◌, true, false, Option, none, some, arith, ◌⊎◌, inl, inr, Bool-cases, Option-cases,
  is_some, refl, ◌∙◌, subst, ◌==◌, if◌then◌else◌,
}
use new1v.Prelude.Int.{ℤ, pos, ◌+ℤ◌, ◌-ℤ◌, ◌≤ℤ◌, int_laws, int_eqs, leb_ℤ}
use new1v.Prelude.Dict.{lookup, alter, lookup-alter}
use new1v.Records.{AppUser}
use new1v.Users.{Users, credit_coins, charge_coins, save_coins, credit_diamonds}

-- The coins that a user holds: none for a user who is not there.
abbrev coins_of : Option AppUser → ℤ
coins_of none = pos 0
coins_of (some u) = u.coins

abbrev pub diamonds_of : Option AppUser → ℤ
diamonds_of none = pos 0
diamonds_of (some u) = u.diamonds

abbrev pub coins : ℕ → Users → ℤ
coins id users = coins_of (lookup id users)

abbrev pub diamonds : ℕ → Users → ℤ
diamonds id users = diamonds_of (lookup id users)

-- No user owes coins.
abbrev pub IsSolvent : Users → Type 0
IsSolvent users = (id : ℕ) → pos 0 ≤ℤ coins id users

not_leb→lt : (a b : ℤ) → leb_ℤ a b ≡ false → b +ℤ pos 1 ≤ℤ a
unfolding ◌+ℤ◌
not_leb→lt a b h = ground arith

-- From `us` to `vs` the user `p` has paid `amount`, nobody else's coins and nobody's diamonds
-- have changed, and the same users are there.
pub record Pays (p : ℕ) (amount : ℤ) (us : Users) (vs : Users) : Type 0 where
  pub payer : coins p vs +ℤ amount ≡ coins p us
  pub others : (j : ℕ) → j ≢ p → coins j vs ≡ coins j us
  pub income : (j : ℕ) → diamonds j vs ≡ diamonds j us
  pub present : (j : ℕ) → is_some (lookup j vs) ≡ is_some (lookup j us)

pub Pays-refl : (p : ℕ) (us : Users) → Pays p (pos 0) us us
Pays-refl p us = record {
  payer = omega int_laws;
  others = λ j h. refl;
  income = λ j. refl;
  present = λ j. refl;
}

pub Pays-trans :
    {p : ℕ} {a b : ℤ} {us vs ws : Users} → Pays p a us vs → Pays p b vs ws → Pays p (a +ℤ b) us ws
Pays-trans s t = record {
  payer = omega (int_eqs, s.payer, t.payer);
  others = λ j h. t.others j h ∙ s.others j h;
  income = λ j. t.income j ∙ s.income j;
  present = λ j. t.present j ∙ s.present j;
}

pub Pays-eq : {p : ℕ} {a b : ℤ} {us vs : Users} → a ≡ b → Pays p a us vs → Pays p b us vs
Pays-eq {p = p} {us = us} {vs = vs} e s = subst (λ x. Pays p x us vs) e s

-- An update of one row that leaves its diamonds pays what it takes from the coins.
alter-Pays :
    (p : ℕ) (f : AppUser → AppUser) (amount : ℤ) (us : Users) (u : AppUser)
    → lookup p us ≡ some u
    → (f u).coins +ℤ amount ≡ u.coins
    → (f u).diamonds ≡ u.diamonds
    → Pays p amount us (alter p f us)
alter-Pays p f amount us u h c d = record {
  payer = rw (lookup-alter p p f us) (ground (arith, h));
  others = λ j ne. ground (arith, lookup-alter j p f us);
  income = λ j. ground (arith, lookup-alter j p f us);
  present = λ j. ground (arith, lookup-alter j p f us);
}

pub credit_coins-Pays :
    (p : ℕ) (z : ℤ) (us : Users) (u : AppUser)
    → lookup p us ≡ some u
    → Pays p (pos 0 -ℤ z) us (credit_coins p z us)
unfolding credit_coins
credit_coins-Pays p z us u h =
    alter-Pays p (λ v. record v { coins = v.coins +ℤ z }) (pos 0 -ℤ z) us u h (omega int_laws) refl

pub save_coins-Pays :
    (p : ℕ) (z : ℤ) (us : Users) (u : AppUser)
    → lookup p us ≡ some u
    → Pays p (u.coins -ℤ z) us (save_coins p z us)
unfolding save_coins
save_coins-Pays p z us u h =
    alter-Pays p (λ v. record v { coins = z }) (u.coins -ℤ z) us u h (omega int_laws) refl

take : ℤ → AppUser → AppUser
take z v = record v { coins = v.coins -ℤ z }

charge_coins_pass :
    (p : ℕ) (z : ℤ) (us : Users) (u : AppUser)
    → lookup p us ≡ some u
    → leb_ℤ z u.coins ≡ true
    → charge_coins p z us ≡ (alter p (take z) us, true)
unfolding charge_coins take
charge_coins_pass p z us u h e = rw (h, charge_coins) (rw e refl)

charge_coins_refuse :
    (p : ℕ) (z : ℤ) (us : Users) (u : AppUser)
    → lookup p us ≡ some u
    → leb_ℤ z u.coins ≡ false
    → charge_coins p z us ≡ (us, false)
unfolding charge_coins
charge_coins_refuse p z us u h e = rw (h, charge_coins) (rw e refl)

pub charge_coins_missing :
    (p : ℕ) (z : ℤ) (us : Users) → lookup p us ≡ none → charge_coins p z us ≡ (us, false)
unfolding charge_coins
charge_coins_missing p z us h = rw (h, charge_coins) refl

take-Pays :
    (p : ℕ) (z : ℤ) (us : Users) (u : AppUser)
    → lookup p us ≡ some u
    → Pays p z us (alter p (take z) us)
unfolding take
take-Pays p z us u h = alter-Pays p (take z) z us u h (omega int_laws) refl

-- A conditional charge takes exactly the amount, and only from a user who holds it; a refused one
-- changes nothing.
pub charge_coins_lem :
    (p : ℕ) (z : ℤ) (us : Users) (u : AppUser)
    → lookup p us ≡ some u
    → (((charge_coins p z us).1 ≡ true) × (z ≤ℤ u.coins) × Pays p z us (charge_coins p z us).0)
      ⊎ ((charge_coins p z us ≡ (us, false)) × (u.coins +ℤ pos 1 ≤ℤ z))
charge_coins_lem p z us u h = elim (Bool-cases (leb_ℤ z u.coins)) [
  | inl e ↦ rw (charge_coins_pass p z us u h e) (inl (refl, ground arith, take-Pays p z us u h))
  | inr e ↦ inr (charge_coins_refuse p z us u h e, not_leb→lt z u.coins e)
]

Pays-IsSolvent :
    {p : ℕ} {a : ℤ} {us vs : Users} → Pays p a us vs → a ≤ℤ coins p us → IsSolvent us → IsSolvent vs
Pays-IsSolvent {p = p} s le h j = elim (ℕ_discrete j p) [
  | yes e ↦ rw e (omega (int_eqs, s.payer))
  | no ne ↦ rw (s.others j ne) (h j)
]

-- Where no user is in debt, a charge leaves none in debt, whoever and whatever amount it is aimed at,
-- and whether it is done or refused.
pub charge_coins-IsSolvent :
    (p : ℕ) (z : ℤ) (us : Users) → IsSolvent us → IsSolvent (charge_coins p z us).0
charge_coins-IsSolvent p z us h = elim (Option-cases (lookup p us)) [
  | inl e ↦ rw (charge_coins_missing p z us e) h
  | inr (u, e) ↦ elim (charge_coins_lem p z us u e) [
    | inl (_, le, s) ↦ Pays-IsSolvent s (rw e le) h
    | inr (same, _) ↦ rw same h
  ]
]

pub credit_diamonds-coins :
    (p j : ℕ) (z : ℤ) (us : Users) → coins j (credit_diamonds p z us) ≡ coins j us
unfolding credit_diamonds
credit_diamonds-coins p j z us =
    ground (arith, lookup-alter j p (λ v. record v { diamonds = v.diamonds +ℤ z }) us)

-- The payer's row after a payment.
pub Pays-row :
    {p : ℕ} {a : ℤ} {us vs : Users} (u : AppUser)
    → Pays p a us vs
    → lookup p us ≡ some u
    → (v : AppUser) × (lookup p vs ≡ some v) × (v.coins +ℤ a ≡ u.coins)
Pays-row {p = p} {a = a} {us = us} {vs = vs} u s h = elim (Option-cases (lookup p vs)) [
  | inl e ↦ absurd (gone (s.present p) e)
  | inr (v, e) ↦ (v, e, row_coins (s.payer) e)
]
  where
    gone : is_some (lookup p vs) ≡ is_some (lookup p us) → lookup p vs ≡ none → ⊥
    gone q e = ground (arith, h)

    row_coins :
        {v : AppUser} → coins p vs +ℤ a ≡ coins p us → lookup p vs ≡ some v → v.coins +ℤ a ≡ u.coins
    row_coins q e = ground (arith, h)

-- The coins alone: `p` has spent `amount`, and nobody else's coins have changed.
pub record Spends (p : ℕ) (amount : ℤ) (us : Users) (vs : Users) : Type 0 where
  pub payer : coins p vs +ℤ amount ≡ coins p us
  pub others : (j : ℕ) → j ≢ p → coins j vs ≡ coins j us

pub Pays-Spends :
    {p : ℕ} {a : ℤ} {us vs ws : Users}
    → Pays p a us vs
    → ((j : ℕ) → coins j ws ≡ coins j vs)
    → Spends p a us ws
Pays-Spends {p = p} s same = record {
  payer = rw (same p) s.payer;
  others = λ j h. same j ∙ s.others j h;
}

pub Spends-trans :
    {p : ℕ} {a b : ℤ} {us vs ws : Users}
    → Pays p a us vs
    → Spends p b vs ws
    → Spends p (a +ℤ b) us ws
Spends-trans s t = record {
  payer = omega (int_eqs, s.payer, t.payer);
  others = λ j h. t.others j h ∙ s.others j h;
}

pub Spends-eq : {p : ℕ} {a b : ℤ} {us vs : Users} → a ≡ b → Spends p a us vs → Spends p b us vs
Spends-eq {p = p} {us = us} {vs = vs} e s = subst (λ x. Spends p x us vs) e s

-- A credit reaches the one user whom it is for, if that user has a row.
pub credit_coins-coins :
    (k p : ℕ) (z : ℤ) (us : Users) (u : AppUser)
    → lookup k us ≡ some u
    → coins k (credit_coins p z us) ≡ (if p == k then coins k us +ℤ z else coins k us)
unfolding credit_coins
credit_coins-coins k p z us u h =
    ground (arith, lookup-alter k p (λ v. record v { coins = v.coins +ℤ z }) us, h)
