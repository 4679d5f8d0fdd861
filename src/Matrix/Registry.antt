-- ===== src/Matrix/Registry.antt =====
-- The check of the registry: `validate_registry` of tools/fs2-dev/src/matrix.rs.
pub mod Valid
pub mod Exact
pub mod Found
use text.Mathlib.Text
use fs2_turbo.Base.{
  ℕ, String, Bool, true, false, not, ◌&&◌, ◌||◌, ◌==◌, if◌then◌else◌, List, [], ◌∷◌, Option, none,
  some, Result, ok, err, ◌>>=◌, ◌>>◌, fail_if,
}
use fs2_turbo.Base.Text.{concat}
use fs2_turbo.Process.Security.{invalid_data}
use fs2_turbo.Matrix
use fs2_turbo.Matrix.{
  EvidenceLevel, Runner, CiSpec, TargetSpec, SupportRegistry, is_runtime, is_compile,
  is_not_covered, is_unknown, runner_is, primary_coverage_toolchain, is_target_triple,
  is_ci_job_name, expected_runtime_runner,
}

-- `HashSet::insert` answers that a text was not there.
unfoldable pub member : String → List String → Bool
member s [] = false
member s (t ∷ texts) = Text.◌==◌ s t || member s texts

-- `!=` of a list of texts and an array.
unfoldable pub same_texts : List String → List String → Bool
same_texts [] [] = true
same_texts (s ∷ ss) (t ∷ ts) = Text.◌==◌ s t && same_texts ss ts
same_texts [] (t ∷ ts) = false
same_texts (s ∷ ss) [] = false

abbrev pub has_level : (EvidenceLevel → Bool) → List EvidenceLevel → Bool
has_level test [] = false
has_level test (level ∷ levels) = test level || has_level test levels

-- The set of the levels is that of all three.
abbrev pub has_all_levels : List EvidenceLevel → Bool
has_all_levels levels =
    has_level is_runtime levels && has_level is_compile levels && has_level is_not_covered levels

abbrev pub is_empty {ℓ} : {A : Type ℓ} → List A → Bool
is_empty [] = true
is_empty (a ∷ as') = false

abbrev pub is_some {ℓ} : {A : Type ℓ} → Option A → Bool
is_some (some a) = true
is_some none = false

abbrev pub runner_matches : Option Runner → Runner → Bool
runner_matches (some expected) runner = runner_is expected runner
runner_matches none runner = false

unfoldable pub require_ci : Option CiSpec → String → Result CiSpec
require_ci (some ci) target = ok ci
require_ci none target = err (invalid_data (concat ("CI metadata missing for " ∷ target ∷ [])))

module _ (rust_version : String) where
  -- A target with jobs.
  unfoldable pub validate_ci : TargetSpec → CiSpec → Result (Unit {0})
  unfolding is_ci_job_name expected_runtime_runner same_texts
  validate_ci entry ci = do
    fail_if (not (is_ci_job_name ci.job))
        (invalid_data (concat ("invalid CI job name for " ∷ entry.target ∷ [])))
    fail_if (is_empty ci.toolchains)
        (invalid_data (concat ("toolchains missing for " ∷ entry.target ∷ [])))
    fail_if
        (is_runtime entry.evidence && not (same_texts ci.toolchains (rust_version ∷ "stable" ∷ [])))
        (invalid_data (
          concat (
            "runtime target " ∷ entry.target ∷ " must use Rust " ∷ rust_version ∷ " and stable"
            ∷ [])))
    fail_if
        (is_runtime entry.evidence
          && not (runner_matches (expected_runtime_runner entry.target) ci.runner))
        (invalid_data
          (concat ("runtime target " ∷ entry.target ∷ " uses the wrong native runner" ∷ [])))
    fail_if
        (is_compile entry.evidence
          && not (same_texts ci.toolchains (rust_version ∷ []))
          && not (same_texts ci.toolchains ("nightly" ∷ [])))
        (invalid_data (
          concat (
            "compile target " ∷ entry.target ∷ " must use Rust " ∷ rust_version ∷ " or nightly"
            ∷ [])))
    fail_if (ci.coverage && not (is_runtime entry.evidence)) (
        invalid_data
          (concat ("compile target " ∷ entry.target ∷ " cannot provide native coverage" ∷ [])))

  -- A target that has jobs by its level: whether it provides coverage.
  unfoldable pub validate_covered : TargetSpec → Result Bool
  unfolding require_ci validate_ci
  validate_covered entry = do
    fail_if (is_unknown entry.allocation) (
        invalid_data
          (concat ("covered target " ∷ entry.target ∷ " must declare allocation capability" ∷ [])))
    ci ← require_ci entry.ci entry.target
    validate_ci entry ci
    ok ci.coverage

  -- What follows the tests of the name.
  unfoldable pub validate_evidence : TargetSpec → Result Bool
  unfolding validate_covered
  validate_evidence entry =
      if not (is_not_covered entry.evidence)
      then validate_covered entry
      else if not (is_unknown entry.allocation) || is_some entry.ci
      then err (
          invalid_data (
            concat (
              "not-covered target " ∷ entry.target ∷ " must use unknown allocation and no CI"
              ∷ [])))
      else ok false

  -- `{:?}` of a text is a parameter.
  module _ (debug : String → String) where
    unfoldable pub validate_target : List String → TargetSpec → Result Bool
    unfolding is_target_triple member validate_evidence
    validate_target targets entry = do
      fail_if (not (is_target_triple entry.target))
          (invalid_data (concat ("target is not approved: " ∷ debug entry.target ∷ [])))
      fail_if (member entry.target targets)
          (invalid_data (concat ("target must be unique: " ∷ debug entry.target ∷ [])))
      fail_if (Text.◌==◌ entry.platform "")
          (invalid_data (concat ("platform must be non-empty for " ∷ entry.target ∷ [])))
      validate_evidence entry

    -- The loop, with the targets that it has seen; it says whether a target is run and whether one
    -- provides coverage.
    unfoldable pub validate_targets :
        List String → Bool → Bool → List TargetSpec → Result (Bool × Bool)
    unfolding validate_target
    validate_targets targets has_runtime has_coverage [] = ok (has_runtime, has_coverage)
    validate_targets targets has_runtime has_coverage (entry ∷ entries) = do
      coverage ← validate_target targets entry
      validate_targets (entry.target ∷ targets) (has_runtime || is_runtime entry.evidence)
          (has_coverage || coverage) entries

    unfoldable pub validate_registry : SupportRegistry → Result (Unit {0})
    unfolding validate_targets
    validate_registry registry = do
      fail_if (not (registry.version == 6)) (invalid_data "support matrix version must be 6")
      fail_if (not (Text.◌==◌ registry.coverage_toolchain primary_coverage_toolchain)) (
          invalid_data (
            concat
              ("coverage toolchain must be pinned to Rust " ∷ primary_coverage_toolchain ∷ [])))
      fail_if (not (has_all_levels registry.evidence_levels))
          (invalid_data "evidence_levels must contain runtime, compile, and not-covered")
      fail_if (is_empty registry.targets) (invalid_data "targets must be a non-empty list")
      found ← validate_targets [] false false registry.targets
      fail_if (not found.0) (invalid_data "at least one runtime target is required")
      fail_if (not found.1) (invalid_data "at least one native coverage target is required")
