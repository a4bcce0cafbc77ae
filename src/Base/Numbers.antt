-- ===== src/Base/Numbers.antt =====
-- Boolean tests on native numbers, and the split on a computed test.
use Prim.Native.Nat.{zero, suc, ℕ, compare, Ordering, ◌<◌}
use mathlib.Core.Bool.{Bool, true, false}
use mathlib.Core.Logic.{◌⊎◌, inl, inr, ◌↔◌}
use mathlib.Core.Path.{◌≡◌, refl}
use native.Mathlib.Omega.{arith}

abbrev pub ltb : ℕ → ℕ → Bool
ltb a b = elim (compare a b) [ Ordering.lt ↦ true | _ ↦ false ]

abbrev pub leb : ℕ → ℕ → Bool
leb a b = elim (compare a b) [ Ordering.gt ↦ false | _ ↦ true ]

infix 50 ◌==◌
abbrev pub ◌==◌ : ℕ → ℕ → Bool
a == b = elim (compare a b) [ Ordering.eq ↦ true | _ ↦ false ]

infix 1 if◌then◌else◌
abbrev pub if◌then◌else◌ {ℓ} : {A : Type ℓ} → Bool → A → A → A
if true then x else y = x
if false then x else y = y

pub ltb_iff : (a b : ℕ) → (ltb a b ≡ true) ↔ (a < b)
ltb_iff a b = (λ h. ground arith, λ h. ground arith)

pub ==_iff : (a b : ℕ) → ((a == b) ≡ true) ↔ (a ≡ b)
==_iff a b = (λ h. ground arith, λ h. ground arith)

pub Bool-cases : (b : Bool) → (b ≡ true) ⊎ (b ≡ false)
Bool-cases true = inl refl
Bool-cases false = inr refl

-- What holds of both branches holds of the test.
pub either_way {ℓ κ} :
    {A : Type ℓ} (P : A → Type κ) (b : Bool) {x y : A} → P x → P y → P (if b then x else y)
either_way P true p q = p
either_way P false p q = q

-- The test passes at each of the first numbers.
unfoldable pub passes : (test : ℕ → Bool) → ℕ → Bool
passes test zero = true
passes test (suc m) = if test m then passes test m else false

pub pass-lt : (test : ℕ → Bool) (m c : ℕ) → c < m → passes test m ≡ true → test c ≡ true
unfolding passes
pass-lt test zero c small ok = absurd (omega arith)
pass-lt test (suc m) c small ok = elim (Bool-cases (c == m)) [
  | inl same ↦ rw ((==_iff c m).0 same) (ground arith)
  | inr other ↦ ground (arith, pass-lt test m c)
]
