-- ===== src/Base/Bits.antt =====
-- Flags: bitwise operations on unsigned numbers.
use Prim.Native.Nat.{ℕ, zero, suc, ◌-◌, ◌/◌, ◌≤◌, max, bit_and, bit_or, digits, bit_or-bitwise}
use mathlib.Core.Path.{◌≡◌, refl, ◌∙◌}
use native.Mathlib.Omega.{arith}

-- `a & !b`.
abbrev pub bit_clear : ℕ → ℕ → ℕ
bit_clear a b = a - bit_and a b

or_digits-zero : (n a : ℕ) → a ≤ n → digits (λ b. b) max n a 0 ≡ a
or_digits-zero zero zero h = refl
or_digits-zero zero (suc a) h = absurd (omega arith)
or_digits-zero (suc n) zero h = refl
or_digits-zero (suc n) (suc a) h = omega (arith, or_digits-zero n (suc a / 2) (omega arith))

pub bit_or-zero : (a : ℕ) → bit_or a 0 ≡ a
bit_or-zero a = bit_or-bitwise a 0 ∙ or_digits-zero a a (omega arith)
