-- ===== src/Base/Text.antt =====
-- Texts as Rust's `format!` builds them, and numbers in decimal.
pub mod Laws
use Prim.Native.Nat.{ℕ, zero, suc, ◌+◌, ◌-◌, ◌*◌, ◌/◌, ◌%◌}
use Prim.Native.String.{String, [], ◌∷◌, ◌++◌}
use Prim.Native.Char.{Char, code}
use mathlib.Core.Path.{◌≡◌, refl}
use mathlib.Core.Bool.{Bool, ◌&&◌}
use mathlib.Core.Option.{Option, none, some}
use mathlib.Core.List
use mathlib.Core.List.{List}
use fs2_turbo.Base.Int.{ℤ, pos, negsuc}
use fs2_turbo.Base.Tests.{ltb, leb, ◌==◌, if◌then◌else◌}
use fs2_turbo.Base.Words.{u64_max}

unfoldable pub concat : List String → String
concat List.[] = ""
concat (List.◌∷◌ s texts) = s ++ concat texts

-- `join` of a slice of texts.
unfoldable pub join : String → List String → String
join separator List.[] = ""
join separator (List.◌∷◌ s List.[]) = s
join separator (List.◌∷◌ s (List.◌∷◌ t texts)) =
    s ++ (separator ++ join separator (List.◌∷◌ t texts))

abbrev pub digit_char : ℕ → Char
digit_char d =
    if d == 0
    then "0"
    else if d == 1
    then "1"
    else if d == 2
    then "2"
    else if d == 3
    then "3"
    else if d == 4
    then "4"
    else if d == 5
    then "5"
    else if d == 6
    then "6"
    else if d == 7
    then "7"
    else if d == 8
    then "8"
    else "9"

-- The digits of a number in front of a text. More rounds than the number are always enough.
unfoldable pub decimal_before : ℕ → ℕ → String → String
decimal_before zero n s = s
decimal_before (suc rounds) n s =
    let rest = decimal_before rounds (n / 10) (digit_char (n % 10) ∷ s) in
    if ltb n 10 then digit_char n ∷ s else rest

-- `{:#x}` of a number.
abbrev pub hex_char : ℕ → Char
hex_char d =
    if ltb d 10
    then digit_char d
    else if d == 10
    then "a"
    else if d == 11
    then "b"
    else if d == 12
    then "c"
    else if d == 13
    then "d"
    else if d == 14
    then "e"
    else "f"

unfoldable pub hex_before : ℕ → ℕ → String → String
hex_before zero n s = s
hex_before (suc rounds) n s =
    let rest = hex_before rounds (n / 16) (hex_char (n % 16) ∷ s) in
    if ltb n 16 then hex_char n ∷ s else rest

unfoldable pub hex : ℕ → String
unfolding hex_before
hex n = "0x" ++ hex_before (suc n) n []

-- `Display` of an unsigned number, and of a signed one.
unfoldable pub decimal : ℕ → String
unfolding decimal_before
decimal n = decimal_before (suc n) n []

unfoldable pub decimal_ℤ : ℤ → String
decimal_ℤ (pos n) = decimal n
decimal_ℤ (negsuc n) = "-" ++ decimal (n + 1)

-- `str::parse::<u64>`: decimal digits behind an optional plus sign, up to the largest `u64`.
unfoldable pub digits : ℕ → String → Option ℕ
digits value [] = some value
digits value (c ∷ s) =
    let value' = value * 10 + (code c - b'0') in
    let rest = digits value' s in
    if leb b'0' (code c) && leb (code c) b'9'
    then if ltb u64_max value' then none else rest
    else none

unfoldable pub unsigned_digits : String → Option ℕ
unsigned_digits [] = none
unsigned_digits (c ∷ s) = digits 0 (c ∷ s)

unfoldable pub parse_u64 : String → Option ℕ
parse_u64 [] = none
parse_u64 (c ∷ s) = if code c == b'+' then unsigned_digits s else unsigned_digits (c ∷ s)

parses : parse_u64 "+18446744073709551615" ≡ some 18446744073709551615
unfolding parse_u64 unsigned_digits digits
parses = refl

overflows : parse_u64 "18446744073709551616" ≡ none
unfolding parse_u64 unsigned_digits digits
overflows = refl

refuses_signs : parse_u64 "-1" ≡ none
unfolding parse_u64 unsigned_digits digits
refuses_signs = refl

prints : decimal 86400 ≡ "86400"
unfolding decimal
prints = refl
