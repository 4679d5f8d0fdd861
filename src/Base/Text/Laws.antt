-- ===== src/Base/Text/Laws.antt =====
-- A number that is printed in decimal is read back.
use Prim.Native.Nat.{ℕ, zero, suc, ◌+◌, ◌-◌, ◌*◌, ◌/◌, ◌%◌, ◌≤◌, ◌<◌}
use Prim.Native.String.{String, [], ◌∷◌}
use Prim.Native.Char.{Char, code}
use mathlib.Core.Path.{◌≡◌, refl, sym, ap, ◌∙◌}
use mathlib.Core.Logic.{inl, inr}
use mathlib.Core.Bool.{Bool, true, false}
use mathlib.Core.Option.{some}
use native.Mathlib.Omega.{arith}
use fs2_turbo.Base.Tests.{ltb, ◌==◌, Bool-cases, if◌then◌else◌}
use fs2_turbo.Base.Words.{u64_max}
use fs2_turbo.Base.Text.{digit_char, decimal_before, decimal, digits, unsigned_digits, parse_u64}

code-if : (b : Bool) (c d : Char) → code (if b then c else d) ≡ (if b then code c else code d)
code-if true c d = refl
code-if false c d = refl

code-digit_char : (d : ℕ) → d < 10 → code (digit_char d) ≡ d + b'0'
code-digit_char d h =
    rw
      (
        code-if (d == 0),
        code-if (d == 1),
        code-if (d == 2),
        code-if (d == 3),
        code-if (d == 4),
        code-if (d == 5),
        code-if (d == 6),
        code-if (d == 7),
        code-if (d == 8),
      )
      (ground arith)

add-sub : (d k : ℕ) → d + k - k ≡ d
add-sub d k = omega arith

digits-digit :
    (v d : ℕ) (s : String)
    → d < 10
    → v * 10 + d ≤ u64_max
    → digits v (digit_char d ∷ s) ≡ digits (v * 10 + d) s
unfolding digits
digits-digit v d s h fits = rw (code-digit_char d h, add-sub d 48) (ground arith)

digits-decimal_before :
    (rounds n : ℕ) (s : String)
    → n < rounds
    → n ≤ u64_max
    → digits 0 (decimal_before rounds n s) ≡ digits n s
unfolding decimal_before
digits-decimal_before zero n s h fits = absurd (omega (arith, h))
digits-decimal_before (suc rounds) n s h fits = elim (Bool-cases (ltb n 10)) [
  | inl small ↦
      rw small (
        digits-digit 0 n s (ground arith) (omega (arith, fits))
        ∙ ap (λ m. digits m s) (omega arith))
  | inr large ↦ rw large (
      digits-decimal_before rounds (n / 10) (digit_char (n % 10) ∷ s) (ground arith)
        (omega (arith, fits))
      ∙ digits-digit (n / 10) (n % 10) s (omega arith) (omega (arith, fits))
      ∙ ap (λ m. digits m s) (omega arith))
]

-- A printed number begins with a digit.
decimal_before-digit :
    (rounds n : ℕ) (s : String)
    → n < rounds
    → (d : ℕ) × d < 10 × (t : String) × (decimal_before rounds n s ≡ digit_char d ∷ t)
unfolding decimal_before
decimal_before-digit zero n s h = absurd (omega (arith, h))
decimal_before-digit (suc rounds) n s h = elim (Bool-cases (ltb n 10)) [
  | inl small ↦ (n, ground arith, s, rw small refl)
  | inr large ↦
      let (d, is_digit, t, e) =
        decimal_before-digit rounds (n / 10) (digit_char (n % 10) ∷ s) (ground arith) in
      (d, is_digit, t, rw large e)
]

parse_u64-digit :
    (d : ℕ) (t : String) → d < 10 → parse_u64 (digit_char d ∷ t) ≡ digits 0 (digit_char d ∷ t)
unfolding parse_u64 unsigned_digits
parse_u64-digit d t h = rw (code-digit_char d h) (ground arith)

pub parse_u64-decimal : (n : ℕ) → n ≤ u64_max → parse_u64 (decimal n) ≡ some n
unfolding decimal digits
parse_u64-decimal n fits =
    let (d, is_digit, t, e) = decimal_before-digit (suc n) n [] (omega arith) in
    ap parse_u64 e
    ∙ parse_u64-digit d t is_digit
    ∙ ap (digits 0) (sym e)
    ∙ digits-decimal_before (suc n) n [] (omega arith) fits
