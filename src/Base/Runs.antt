-- ===== src/Base/Runs.antt =====
-- The outcome of code that walks a `char` buffer in loops: a result, a read outside the buffer, or
-- more rounds than the fuel allows.

pub data Run {ℓ} (A : Type ℓ) : Type ℓ where
  done : A → Run A
  overrun : Run A
  out_of_fuel : Run A

infixl 5 ◌>>=◌
abbrev pub ◌>>=◌ {ℓ κ} : {A : Type ℓ} {B : Type κ} → Run A → (A → Run B) → Run B
done a >>= k = k a
overrun >>= k = overrun
out_of_fuel >>= k = out_of_fuel
