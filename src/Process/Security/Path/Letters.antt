-- ===== src/Process/Security/Path/Letters.antt =====
-- The name of a file up to its first dot, and names that differ in small letters and capitals: `basename`
-- and `to_ascii_uppercase` as tools/fs2-dev/src/process/windows_security.rs uses them.
use Prim.Native.Char.{Char, code}
use text.Mathlib.TextEquality.{Char-path}
use mathlib.Core.Path.{subst}
use fs2_turbo.Base.{
  ℕ, ◌+◌, ◌-◌, ◌≤◌, leb, not, ◌==◌, ◌&&◌, if◌then◌else◌, String, Bool, true, false, ◌≡◌, ◌≢◌, ◌⊎◌,
  inl, inr, refl, ap, sym, ◌∙◌, Bool-cases, arith,
}
use fs2_turbo.Process.Security.Path.{to_ascii_uppercase, basename}

-- The name up to its first dot.
pub data IsStem : String → String → Type 0 where
  whole : IsStem "" ""
  dot : {c : Char} {name : String} → code c ≡ 46 → IsStem (String.◌∷◌ c name) ""
  next :
      {c : Char} {name stem : String}
      → code c ≢ 46
      → IsStem name stem
      → IsStem (String.◌∷◌ c name) (String.◌∷◌ c stem)

pub basename-IsStem : (name : String) → IsStem name (basename name)
unfolding basename
basename-IsStem String.[] = whole
basename-IsStem (String.◌∷◌ c name) = elim (Bool-cases (code c == 46)) [
  | inl here ↦
      let cut : basename (String.◌∷◌ c name) ≡ "" = ground (arith, here) in
      subst (IsStem (String.◌∷◌ c name)) (sym cut) (dot (ground (arith, here)))
  | inr other ↦
      let kept : basename (String.◌∷◌ c name) ≡ String.◌∷◌ c (basename name) =
        ground (arith, other) in
      subst (IsStem (String.◌∷◌ c name)) (sym kept)
        (next (λ p. absurd (ground (arith, other, p))) (basename-IsStem name))
]

pub IsStem-basename : {name stem : String} → IsStem name stem → basename name ≡ stem
unfolding basename
IsStem-basename whole = refl
IsStem-basename (dot h) = ground (arith, h)
IsStem-basename (next h rest) = ground (arith, h, IsStem-basename rest)

-- The same letters, but that the first text may have a small letter for a capital.
abbrev pub IsSameLetter : Char → Char → Type 0
IsSameLetter c d = (code c ≡ code d) ⊎ (97 ≤ code c × code c ≤ 122 × (code c ≡ code d + 32))

pub data IsSpelled : String → String → Type 0 where
  ends : IsSpelled "" ""
  letter :
      {c d : Char} {s t : String}
      → IsSameLetter c d
      → IsSpelled s t
      → IsSpelled (String.◌∷◌ c s) (String.◌∷◌ d t)

-- No small letter.
abbrev pub is_capital : String → Bool
is_capital String.[] = true
is_capital (String.◌∷◌ c s) = not (leb 97 (code c) && leb (code c) 122) && is_capital s

-- The characters of the capitals, by their numbers.
abbrev pub IsCapitals : (ℕ → Char) → Type 0
IsCapitals from_code = (n : ℕ) → 65 ≤ n → n ≤ 90 → code (from_code n) ≡ n

module _ (from_code : ℕ → Char) (capitals : IsCapitals from_code) where
  abbrev raised : Bool → Char → Char
  raised small c = if small then from_code (code c - 32) else c

  raised-IsSameLetter :
      (c : Char) (small : Bool)
      → (leb 97 (code c) && leb (code c) 122) ≡ small
      → IsSameLetter c (raised small c)
  raised-IsSameLetter c false h = inl refl
  raised-IsSameLetter c true h =
      let same = capitals (code c - 32) (ground arith) (ground arith) in
      inr (ground arith, ground arith, ground (arith, same))

  IsSameLetter-raised :
      (c d : Char) (small : Bool)
      → (leb 97 (code c) && leb (code c) 122) ≡ small
      → IsSameLetter c d
      → not (leb 97 (code d) && leb (code d) 122) ≡ true
      → raised small c ≡ d
  IsSameLetter-raised c d false h (inl same) capital = Char-path c d same
  IsSameLetter-raised c d false h (inr (low, high, same)) capital = absurd (ground arith)
  IsSameLetter-raised c d true h (inl same) capital = absurd (ground arith)
  IsSameLetter-raised c d true h (inr (low, high, same)) capital =
      let number = capitals (code c - 32) (ground arith) (ground arith) in
      Char-path (from_code (code c - 32)) d (ground (arith, number))

  pub upper-IsSpelled : (s : String) → IsSpelled s (to_ascii_uppercase from_code s)
  unfolding to_ascii_uppercase
  upper-IsSpelled String.[] = ends
  upper-IsSpelled (String.◌∷◌ c s) =
      letter (raised-IsSameLetter c (leb 97 (code c) && leb (code c) 122) refl) (upper-IsSpelled s)

  pub IsSpelled-upper :
      {s d : String} → IsSpelled s d → is_capital d ≡ true → to_ascii_uppercase from_code s ≡ d
  unfolding to_ascii_uppercase
  IsSpelled-upper ends h = refl
  IsSpelled-upper (letter {c} {d} {s} {t} same rest) h =
      let here =
        IsSameLetter-raised c d (leb 97 (code c) && leb (code c) 122) refl same (ground arith) in
      let later = IsSpelled-upper rest (ground arith) in
      ap (λ c. String.◌∷◌ c (to_ascii_uppercase from_code s)) here ∙ ap (String.◌∷◌ d) later
