-- ===== src/Prelude/Dict.antt =====
-- A table of rows by their numeric primary key.
use Prim.Native.Nat.{ℕ}
use mathlib.Core.Path.{◌≡◌}
use mathlib.Core.List.{List, [], ◌∷◌}
use mathlib.Core.Option
use mathlib.Core.Option.{Option, none, some}
use native.Mathlib.Omega.{arith}
use new1v.Prelude.Tests.{◌==◌, if◌then◌else◌}

abbrev pub Dict {ℓ} : Type ℓ → Type ℓ
Dict V = List (ℕ × V)

module _ {ℓ} {V : Type ℓ} where
  unfoldable pub lookup : ℕ → Dict V → Option V
  lookup k [] = none
  lookup k ((j, v) ∷ d) = if k == j then some v else lookup k d

  -- `UPDATE … WHERE id = k`
  unfoldable pub alter : ℕ → (V → V) → Dict V → Dict V
  alter k f [] = []
  alter k f ((j, v) ∷ d) = if k == j then (j, f v) ∷ d else (j, v) ∷ alter k f d

  pub lookup-alter :
      (j k : ℕ) (f : V → V) (d : Dict V)
      → lookup j (alter k f d) ≡ (if k == j then Option.map f (lookup j d) else lookup j d)
  unfolding lookup alter
  lookup-alter j k f [] = ground arith
  lookup-alter j k f (e ∷ d) = ground (arith, lookup-alter j k f d)

  pub lookup-alter_self :
      (k : ℕ) (f : V → V) (d : Dict V) (v : V)
      → lookup k d ≡ some v
      → lookup k (alter k f d) ≡ some (f v)
  lookup-alter_self k f d v h = ground (arith, lookup-alter k k f d)
