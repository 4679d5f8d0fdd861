-- ===== src/Coverage.antt =====
-- The coverage gate of the developer tool: tools/fs2-dev/src/coverage.rs and
-- tools/fs2-dev/src/coverage/source_locations.rs. An error of the gate is the arguments of its message.
pub mod Keyed
pub mod Policy
pub mod SourcePath
pub mod Lcov
pub mod Groups
pub mod Locations
use fs2_turbo.Base.{
  ℕ, String, Bool, true, false, List, Option, none, some, ◌≡◌, ◌⊎◌, inl, inr, refl,
}

pub record Metric : Type 0 where
  pub count : ℕ
  pub covered : ℕ

pub record PhysicalLines : Type 0 where
  pub count : ℕ
  pub covered : ℕ

-- `invalid_data(format!(..))`, message by message.
pub data Rejection : Type 0 where
  too_few : String → String → ℕ → ℕ → Rejection
  incomplete : String → String → PhysicalLines → Rejection
  uncovered_regions : String → ℕ → ℕ → Rejection
  more_covered : String → Rejection
  no_policy : String → Rejection
  malformed_region : Rejection
  lcov_empty_path : ℕ → Rejection
  lcov_no_source : ℕ → Rejection
  lcov_missing : String → ℕ → Rejection
  lcov_invalid : String → ℕ → Rejection
  lcov_no_lines : Rejection
  empty_union : String → String → Rejection
  unreviewed : String → List (String × ℕ × ℕ) → Rejection
  unsupported_profile : String → Rejection
  unowned : String → List (String × ℕ × ℕ) → Rejection

pub data Verdict {ℓ} (A : Type ℓ) : Type ℓ where
  pass : A → Verdict A
  reject : Rejection → Verdict A

pub Verdict-cases {ℓ} :
    {A : Type ℓ} (v : Verdict A) → ((a : A) × (v ≡ pass a)) ⊎ ((r : Rejection) × (v ≡ reject r))
Verdict-cases (pass a) = inl (a, refl)
Verdict-cases (reject r) = inr (r, refl)

infixl 5 ◌>>=◌ ◌>>◌
abbrev pub ◌>>=◌ {ℓ κ} : {A : Type ℓ} {B : Type κ} → Verdict A → (A → Verdict B) → Verdict B
pass a >>= f = f a
reject r >>= f = reject r

abbrev pub ◌>>◌ {ℓ κ} : {A : Type ℓ} {B : Type κ} → Verdict A → Verdict B → Verdict B
m >> k = m >>= λ _. k

abbrev pub reject_if : Bool → Rejection → Verdict (Unit {0})
reject_if true r = reject r
reject_if false r = pass tt
