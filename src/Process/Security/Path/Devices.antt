-- ===== src/Process/Security/Path/Devices.antt =====
-- Which names are those of devices: `reserved_device_name` of
-- tools/fs2-dev/src/process/windows_security.rs, in words of its own.
use Prim.Native.String.{◌++◌, len, slice}
use Prim.Native.Char.{Char}
use text.Mathlib.Text
use text.Mathlib.Text.{starts_with}
use text.Mathlib.TextEquality.{eq_iff, starts_with_iff}
use text.Mathlib.TextPositions.{len-append, slice-append_right}
use mathlib.Core.Path.{subst}
use fs2_turbo.Base.{
  ℕ, ◌||◌, ◌&&◌, String, Bool, true, false, List, [], ◌∷◌, Option, none, some, ◌≡◌, inl, inr, refl,
  ap, sym, ◌∙◌, All, Any, Bool-cases, arith,
}
use fs2_turbo.Process.Security.Path.{
  to_ascii_uppercase, one_of, strip_prefix, port_numbers, device_names, is_port,
  reserved_device_name,
}
use fs2_turbo.Process.Security.Path.Letters.{
  IsSpelled, IsCapitals, is_capital, upper-IsSpelled, IsSpelled-upper,
}

-- The names, and the numbers of the ports, the last three of them superscripts.
abbrev names : List String
names = "CON" ∷ "PRN" ∷ "AUX" ∷ "NUL" ∷ "CLOCK$" ∷ "CONIN$" ∷ "CONOUT$" ∷ []

abbrev numbers : List String
numbers = "1" ∷ "2" ∷ "3" ∷ "4" ∷ "5" ∷ "6" ∷ "7" ∷ "8" ∷ "9" ∷ "¹" ∷ "²" ∷ "³" ∷ []

-- In any case, the name of a device, or of a serial or parallel port.
pub data IsDevice (name : String) : Type 0 where
  device : Any (λ d. IsSpelled name d) names → IsDevice name
  serial : Any (λ n. IsSpelled name ("COM" ++ n)) numbers → IsDevice name
  parallel : Any (λ n. IsSpelled name ("LPT" ++ n)) numbers → IsDevice name

one_of-Any : (list : List String) (s : String) → one_of list s ≡ true → Any (λ d. s ≡ d) list
unfolding one_of
one_of-Any [] s h = absurd cc
one_of-Any (d ∷ list) s h = elim (Bool-cases (Text.◌==◌ s d)) [
  | inl here ↦ inl ((eq_iff s d).0 here)
  | inr other ↦ inr (one_of-Any list s (ground (arith, other)))
]

Any-map {ℓ} :
    {A : Type ℓ} (P Q : A → Type 0) (xs : List A) → ((x : A) → P x → Q x) → Any P xs → Any Q xs
Any-map P Q [] f p = absurd p
Any-map P Q (x ∷ xs) f (inl p) = inl (f x p)
Any-map P Q (x ∷ xs) f (inr p) = inr (Any-map P Q xs f p)

strip_prefix-append : (start s rest : String) → strip_prefix start s ≡ some rest → s ≡ start ++ rest
unfolding strip_prefix
strip_prefix-append start s rest h = elim (Bool-cases (starts_with s start)) [
  | inr other ↦ absurd (ground (arith, other))
  | inl begins ↦
      let (w, same) = (starts_with_iff s start).0 begins in
      let cut : some (slice s (len start) (len s)) ≡ some rest = rw begins at h in
      let tail : slice s (len start) (len s) ≡ w =
        subst (λ s. slice s (len start) (len s) ≡ w) same
          (rw len-append (slice-append_right start w)) in
      let whole : rest ≡ w = cc in sym same ∙ ap (λ w. start ++ w) (sym whole)
]

Any-found {ℓ} :
    {A : Type ℓ} (P Q : A → Type 0) (xs : List A) → Any P xs → All Q xs → (x : A) × P x × Q x
Any-found P Q [] p q = absurd p
Any-found P Q (x ∷ xs) (inl p) (q, qs) = (x, p, q)
Any-found P Q (x ∷ xs) (inr p) (q, qs) = Any-found P Q xs p qs

-- `reserved_device_name` of a name in capitals.
abbrev is_reserved : String → Bool
is_reserved upper =
    one_of device_names upper || is_port (strip_prefix "COM" upper) (strip_prefix "LPT" upper)

abbrev is_listed : String → Bool
is_listed upper = is_reserved upper && is_capital upper

both : (a b : Bool) → (a && b) ≡ true → (a ≡ true) × (b ≡ true)
both true b h = (refl, h)
both false b h = absurd cc

abbrev all : (String → Bool) → List String → Bool
all test [] = true
all test (s ∷ list) = test s && all test list

all-All :
    (test : String → Bool) (list : List String)
    → all test list ≡ true
    → All (λ s. test s ≡ true) list
all-All test [] h = tt
all-All test (s ∷ list) h =
    let (here, later) = both (test s) (all test list) h in (here, all-All test list later)

module _ (from_code : ℕ → Char) (capitals : IsCapitals from_code) where
  -- A text with the capitals of the name, and the test of the capitals.
  spelled :
      (name d : String)
      → IsSpelled name d
      → is_listed d ≡ true
      → reserved_device_name from_code name ≡ true
  unfolding reserved_device_name
  spelled name d h listed =
      let (reserved, capital) = both (is_reserved d) (is_capital d) listed in
      subst (λ u. is_reserved u ≡ true) (sym (IsSpelled-upper from_code capitals h capital))
        reserved

  pub IsDevice-reserved :
      (name : String) → IsDevice name → reserved_device_name from_code name ≡ true
  unfolding one_of strip_prefix is_port
  IsDevice-reserved name (device h) =
      let (d, same, tests) =
        Any-found (IsSpelled name) (λ d. is_listed d ≡ true) names h
          (all-All is_listed names refl) in
      spelled name d same tests
  IsDevice-reserved name (serial h) =
      let (n, same, tests) =
        Any-found (λ n. IsSpelled name ("COM" ++ n)) (λ n. is_listed ("COM" ++ n) ≡ true) numbers h
          (all-All (λ n. is_listed ("COM" ++ n)) numbers refl) in
      spelled name ("COM" ++ n) same tests
  IsDevice-reserved name (parallel h) =
      let (n, same, tests) =
        Any-found (λ n. IsSpelled name ("LPT" ++ n)) (λ n. is_listed ("LPT" ++ n) ≡ true) numbers h
          (all-All (λ n. is_listed ("LPT" ++ n)) numbers refl) in
      spelled name ("LPT" ++ n) same tests

  capitals-IsSpelled : (name d : String) → to_ascii_uppercase from_code name ≡ d → IsSpelled name d
  capitals-IsSpelled name d same =
      subst (IsSpelled name) same (upper-IsSpelled from_code capitals name)

  port-numbers :
      (name start : String) (rest : String)
      → strip_prefix start (to_ascii_uppercase from_code name) ≡ some rest
      → one_of port_numbers rest ≡ true
      → Any (λ n. IsSpelled name (start ++ n)) numbers
  port-numbers name start rest cut h =
      Any-map (λ n. rest ≡ n) (λ n. IsSpelled name (start ++ n)) numbers
        (λ n same. capitals-IsSpelled name (start ++ n) (
          strip_prefix-append start (to_ascii_uppercase from_code name) rest cut
          ∙ ap (λ n. start ++ n) same))
        (one_of-Any port_numbers rest h)

  port-IsDevice :
      (name : String) (a b : Option String)
      → strip_prefix "COM" (to_ascii_uppercase from_code name) ≡ a
      → strip_prefix "LPT" (to_ascii_uppercase from_code name) ≡ b
      → is_port a b ≡ true
      → IsDevice name
  unfolding is_port
  port-IsDevice name (some n) b c l h = serial (port-numbers name "COM" n c h)
  port-IsDevice name none (some n) c l h = parallel (port-numbers name "LPT" n l h)
  port-IsDevice name none none c l h = absurd cc

  pub reserved-IsDevice :
      (name : String) → reserved_device_name from_code name ≡ true → IsDevice name
  unfolding reserved_device_name
  reserved-IsDevice name h =
      let upper = to_ascii_uppercase from_code name in
      elim (Bool-cases (one_of device_names upper)) [
        | inl here ↦ device (
            Any-map (λ d. to_ascii_uppercase from_code name ≡ d) (IsSpelled name) names
              (λ d same. capitals-IsSpelled name d same) (one_of-Any device_names upper here))
        | inr other ↦
            port-IsDevice name (strip_prefix "COM" upper) (strip_prefix "LPT" upper) refl refl
              (ground (arith, other))
      ]
