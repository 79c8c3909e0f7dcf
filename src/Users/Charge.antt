-- ===== src/Users/Charge.antt =====
-- A conditional charge and a credit, read off for any user at all.

use new1v.Prelude.{
  ℕ, ◌≡◌, refl, Bool, true, false, none, ◌&&◌, ◌==◌, if◌then◌else◌, arith, inl, inr, Bool-cases,
  Option-cases, is_some, ==_iff, subst,
}
use new1v.Prelude.Int.{ℤ, pos, ◌+ℤ◌, int_eqs}
use new1v.Prelude.Dict.{lookup, lookup-alter}
use new1v.Users.{Users, charge_coins, credit_diamonds}
use new1v.Users.Balance.{coins, diamonds, Pays, charge_coins_lem, charge_coins_missing}

-- What user j is charged by a charge of user p.
abbrev pub charge_of : (p j : ℕ) → ℤ → Bool → ℤ
charge_of p j z paid = if paid && (p == j) then z else pos 0

-- The charge took what it reports, and left diamonds and rows alone.
pub record Charged (p : ℕ) (z : ℤ) (paid : Bool) (us : Users) (vs : Users) : Type 0 where
  pub spent : (j : ℕ) → coins j vs +ℤ charge_of p j z paid ≡ coins j us
  pub income : (j : ℕ) → diamonds j vs ≡ diamonds j us
  pub present : (j : ℕ) → is_some (lookup j vs) ≡ is_some (lookup j us)

-- To take nothing is to be refused.
pub Charged-none :
    (p : ℕ) (z : ℤ) {us vs : Users} → Charged p z false us vs → Charged p (pos 0) true us vs
Charged-none p z c = record {
  spent = λ j. ground (arith, c.spent j);
  income = c.income;
  present = c.present;
}

pub Charged-refl : (p : ℕ) (z : ℤ) (us : Users) → Charged p z false us us
Charged-refl p z us = record { spent = λ j. omega int_eqs; income = λ j. refl; present = λ j. refl }

Pays-Charged : {p : ℕ} {z : ℤ} {us vs : Users} → Pays p z us vs → Charged p z true us vs
Pays-Charged {p = p} {z = z} {us = us} {vs = vs} s = record {
  spent = λ j. elim (Bool-cases (p == j)) [
    | inl e ↦ rw e (subst (λ x. coins x vs +ℤ z ≡ coins x us) ((==_iff p j).0 e) s.payer)
    | inr e ↦ rw e (omega (int_eqs, s.others j (ground (arith, e))))
  ];
  income = s.income;
  present = s.present;
}

pub charge_coins-Charged :
    (p : ℕ) (z : ℤ) (us : Users) → Charged p z (charge_coins p z us).1 us (charge_coins p z us).0
charge_coins-Charged p z us = elim (Option-cases (lookup p us)) [
  | inl e ↦ rw (charge_coins_missing p z us e) (Charged-refl p z us)
  | inr (u, e) ↦ elim (charge_coins_lem p z us u e) [
    | inl (paid, _, s) ↦ rw paid (Pays-Charged s)
    | inr (same, _) ↦ rw same (Charged-refl p z us)
  ]
]

-- A credit reaches the one user whom it is for, if that user has a row.
pub credit_diamonds-diamonds :
    (k p : ℕ) (z : ℤ) (us : Users)
    → is_some (lookup k us) ≡ true
    → diamonds k (credit_diamonds p z us) ≡ diamonds k us +ℤ (if p == k then z else pos 0)
unfolding credit_diamonds
credit_diamonds-diamonds k p z us h = elim (Option-cases (lookup k us)) [
  | inl e ↦ absurd (gone e)
  | inr (u, e) ↦
      let zero_more : u.diamonds +ℤ pos 0 ≡ u.diamonds = omega int_eqs in
      ground
        (arith, lookup-alter k p (λ v. record v { diamonds = v.diamonds +ℤ z }) us, e, zero_more)
]
  where
    gone : lookup k us ≡ none → ⊥
    gone e = ground (arith, h, e)
