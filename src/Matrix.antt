-- ===== src/Matrix.antt =====
-- The targets that the developer tool supports, and the matrices of jobs that it makes of them:
-- tools/fs2-dev/src/matrix.rs. This file holds the registry's data and the tests on its names.
pub mod Registry
pub mod Generated
use Prim.Native.Char.{Char, code}
use Prim.Native.String
use text.Mathlib.Text
use text.Mathlib.Text.{find?}
use fs2_turbo.Base.{
  ℕ, zero, suc, String, Bool, true, false, not, ◌&&◌, ◌||◌, leb, ltb, ◌==◌, if◌then◌else◌, List,
  Option, none, some, ◌≡◌, refl,
}

pub data EvidenceLevel : Type 0 where
  runtime compile not_covered : EvidenceLevel

pub data AllocationCapability : Type 0 where
  physical_reservation unsupported unknown : AllocationCapability

pub data Runner : Type 0 where
  mac_os_intel mac_os ubuntu windows : Runner

unfoldable pub coverage_as_str : Runner → String
coverage_as_str mac_os_intel = "macos-15-intel"
coverage_as_str mac_os = "macos-26"
coverage_as_str ubuntu = "ubuntu-24.04"
coverage_as_str windows = "windows-2025-vs2026"

unfoldable pub as_str : Runner → String
as_str mac_os_intel = "macos-15-intel"
as_str mac_os = "macos-latest"
as_str ubuntu = "ubuntu-latest"
as_str windows = "windows-latest"

pub record CiSpec : Type 0 where
  pub job : String
  pub runner : Runner
  pub toolchains : List String
  pub coverage : Bool

pub record TargetSpec : Type 0 where
  pub target : String
  pub platform : String
  pub evidence : EvidenceLevel
  pub allocation : AllocationCapability
  pub ci : Option CiSpec

pub record SupportRegistry : Type 0 where
  pub version : ℕ
  pub coverage_toolchain : String
  pub evidence_levels : List EvidenceLevel
  pub targets : List TargetSpec

-- A row of a matrix, which is the list of its rows.
pub record MatrixEntry : Type 0 where
  pub os : String
  pub target : String
  pub toolchain : String

abbrev pub primary_coverage_toolchain : String
primary_coverage_toolchain = "1.98.1"

-- Derived `Eq` of the three enums.
abbrev pub is_runtime : EvidenceLevel → Bool
is_runtime runtime = true
is_runtime compile = false
is_runtime not_covered = false

abbrev pub is_compile : EvidenceLevel → Bool
is_compile runtime = false
is_compile compile = true
is_compile not_covered = false

abbrev pub is_not_covered : EvidenceLevel → Bool
is_not_covered runtime = false
is_not_covered compile = false
is_not_covered not_covered = true

abbrev pub is_unknown : AllocationCapability → Bool
is_unknown physical_reservation = false
is_unknown unsupported = false
is_unknown unknown = true

abbrev pub runner_is : Runner → Runner → Bool
runner_is mac_os_intel mac_os_intel = true
runner_is mac_os mac_os = true
runner_is ubuntu ubuntu = true
runner_is windows windows = true
runner_is _ _ = false

-- `str::contains` of a text.
abbrev pub contains : String → String → Bool
contains s part = elim (find? s part) [ some _ ↦ true | none ↦ false ]

abbrev pub is_ascii_lowercase : ℕ → Bool
is_ascii_lowercase c = leb b'a' c && leb c b'z'

abbrev pub is_ascii_digit : ℕ → Bool
is_ascii_digit c = leb b'0' c && leb c b'9'

abbrev pub is_ascii_alphanumeric : ℕ → Bool
is_ascii_alphanumeric c = is_ascii_lowercase c || (leb b'A' c && leb c b'Z') || is_ascii_digit c

-- `all` of the characters, which are the bytes of a text in ASCII.
unfoldable pub all_codes : (ℕ → Bool) → String → Bool
all_codes test String.[] = true
all_codes test (String.◌∷◌ c s) = test (code c) && all_codes test s

-- `split(c).count()`.
unfoldable pub parts : ℕ → String → ℕ
parts c String.[] = 1
parts c (String.◌∷◌ d s) = let rest = parts c s in if code d == c then suc rest else rest

abbrev pub starts_with_code : ℕ → String → Bool
starts_with_code c String.[] = false
starts_with_code c (String.◌∷◌ d s) = code d == c

abbrev pub ends_with_code : ℕ → String → Bool
ends_with_code c String.[] = false
ends_with_code c (String.◌∷◌ d String.[]) = code d == c
ends_with_code c (String.◌∷◌ d (String.◌∷◌ e s)) = ends_with_code c (String.◌∷◌ e s)

unfoldable pub is_target_triple : String → Bool
unfolding all_codes parts
is_target_triple value =
    all_codes (λ c. ltb c 128) value
    && leb 3 (parts b'-' value)
    && not (starts_with_code b'-' value)
    && not (ends_with_code b'-' value)
    && all_codes (λ c. is_ascii_lowercase c || is_ascii_digit c || c == b'-' || c == b'_') value

abbrev pub first_is_alphanumeric : String → Bool
first_is_alphanumeric String.[] = false
first_is_alphanumeric (String.◌∷◌ c s) = is_ascii_alphanumeric (code c)

unfoldable pub is_ci_job_name : String → Bool
unfolding all_codes
is_ci_job_name value =
    all_codes (λ c. ltb c 128) value
    && first_is_alphanumeric value
    && all_codes (λ c. is_ascii_alphanumeric c || c == b'_') value

unfoldable pub expected_runtime_runner : String → Option Runner
expected_runtime_runner target =
    if contains target "-pc-windows-"
    then some windows
    else if Text.◌==◌ target "x86_64-apple-darwin"
    then some mac_os_intel
    else if Text.◌==◌ target "aarch64-apple-darwin"
    then some mac_os
    else if contains target "-unknown-linux-"
    then some ubuntu
    else none

triple : is_target_triple "x86_64-unknown-linux-gnu" ≡ true
unfolding is_target_triple
triple = refl

no_triple : is_target_triple "x86_64-Linux" ≡ false
unfolding is_target_triple
no_triple = refl
