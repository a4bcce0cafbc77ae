-- ===== src/Base/Cells.antt =====
-- Pointers with the values that they lead to: chains of nodes without their links.
use Prim.Native.Nat.{ℕ, ◌+◌, ◌≤◌, ◌<◌}
use mathlib.Core.Bool.{false}
use mathlib.Core.List.{[], ◌∷◌}
use mathlib.Core.Path.{◌≡◌}
use native.Mathlib.Omega.{arith}
use libjaypea.Base.Numbers.{◌==◌}
use libjaypea.Base.Tables.{Table}

pub apart_sym : (a b : ℕ) → (a == b) ≡ false → (b == a) ≡ false
apart_sym a b h = ground arith

module _ {ℓ} {A : Type ℓ} where
  -- The first pointer, or the null pointer.
  abbrev pub first : Table A → ℕ
  first [] = 0
  first ((p, value) ∷ cells) = p

  abbrev pub NotIn : ℕ → Table A → Type 0
  NotIn p [] = Unit
  NotIn p ((q, value) ∷ cells) = ((p == q) ≡ false) × NotIn p cells

  abbrev pub IsDistinct : Table A → Type 0
  IsDistinct [] = Unit
  IsDistinct ((p, value) ∷ cells) = NotIn p cells × IsDistinct cells

  abbrev pub IsBelow : ℕ → Table A → Type 0
  IsBelow fresh [] = Unit
  IsBelow fresh ((p, value) ∷ cells) = (1 ≤ p) × (p < fresh) × IsBelow fresh cells

  pub IsBelow-next : (fresh : ℕ) (cells : Table A) → IsBelow fresh cells → IsBelow (fresh + 1) cells
  IsBelow-next fresh [] below = tt
  IsBelow-next fresh ((p, value) ∷ cells) (positive, less, below) =
      (positive, omega arith, IsBelow-next fresh cells below)

  pub NotIn-fresh : (fresh : ℕ) (cells : Table A) → IsBelow fresh cells → NotIn fresh cells
  NotIn-fresh fresh [] below = tt
  NotIn-fresh fresh ((p, value) ∷ cells) (positive, less, below) =
      (ground arith, NotIn-fresh fresh cells below)
