-- ===== src/Examples/Targets.antt =====
-- A registry of three targets, on which the theorems on the matrices are applied.
use text.Mathlib.Text
use fs2_turbo.Base.{String, true, false, if◌then◌else◌, [], ◌∷◌, none, some, ◌≡◌, ◌↔◌, refl, ok}
use fs2_turbo.Coverage.Keyed.{get}
use fs2_turbo.Matrix.{EvidenceLevel, AllocationCapability, Runner, TargetSpec, SupportRegistry}
use fs2_turbo.Matrix.Registry.{validate_registry}
use fs2_turbo.Matrix.Registry.Exact.{IsValid, validate_registry_iff}
use fs2_turbo.Matrix.Generated.{text_order, coverage_rows, matrices}
use fs2_turbo.Matrix.Generated.Rows.{rows_of, has_job, matrices-get}

abbrev linux : TargetSpec
linux = record {
  target = "x86_64-unknown-linux-gnu";
  platform = "Linux";
  evidence = EvidenceLevel.runtime;
  allocation = AllocationCapability.physical_reservation;
  ci = some (record {
    job = "native";
    runner = Runner.ubuntu;
    toolchains = "1.88.0" ∷ "stable" ∷ [];
    coverage = true;
  });
}

abbrev illumos : TargetSpec
illumos = record {
  target = "x86_64-unknown-illumos";
  platform = "illumos";
  evidence = EvidenceLevel.compile;
  allocation = AllocationCapability.unsupported;
  ci = some (record {
    job = "cross";
    runner = Runner.ubuntu;
    toolchains = "nightly" ∷ [];
    coverage = false;
  });
}

abbrev haiku : TargetSpec
haiku = record {
  target = "x86_64-unknown-haiku";
  platform = "Haiku";
  evidence = EvidenceLevel.not_covered;
  allocation = AllocationCapability.unknown;
  ci = none;
}

abbrev supported : SupportRegistry
supported = record {
  version = 6;
  coverage_toolchain = "1.98.1";
  evidence_levels = EvidenceLevel.compile ∷ EvidenceLevel.runtime ∷ EvidenceLevel.not_covered ∷ [];
  targets = linux ∷ illumos ∷ haiku ∷ [];
}

abbrev quoted : String → String
quoted s = s

registry_accepted : validate_registry "1.88.0" quoted supported ≡ ok tt
unfolding validate_registry
registry_accepted = refl

validate_registry_iff_example :
    (validate_registry "1.88.0" quoted supported ≡ ok tt) ↔ IsValid "1.88.0" supported
validate_registry_iff_example = validate_registry_iff "1.88.0" quoted supported

-- Two targets by the same name are refused.
twice_refused :
    (validate_registry "1.88.0" quoted (record {
      version = 6;
      coverage_toolchain = "1.98.1";
      evidence_levels = supported.evidence_levels;
      targets = linux ∷ linux ∷ [];
    })
      ≡ ok tt)
    → ⊥
unfolding validate_registry
twice_refused h = cc

matrices-get_example : get text_order "native" (matrices supported) ≡ (
    if Text.◌==◌ "native" "coverage"
    then some (coverage_rows supported.coverage_toolchain supported.targets)
    else if has_job "native" supported.targets
    then some (rows_of "native" supported.targets)
    else none)
matrices-get_example = matrices-get supported "native"

native_rows :
    get text_order "native" (matrices supported)
    ≡ some (
        record { os = "ubuntu-latest"; target = "x86_64-unknown-linux-gnu"; toolchain = "1.88.0" }
        ∷ record { os = "ubuntu-latest"; target = "x86_64-unknown-linux-gnu"; toolchain = "stable" }
        ∷ [])
unfolding matrices get
native_rows = refl

-- The rows of a job by the name `coverage` are in no matrix.
abbrev lost : SupportRegistry
lost = record {
  version = 6;
  coverage_toolchain = "1.98.1";
  evidence_levels = supported.evidence_levels;
  targets =
      linux
      ∷ record {
        target = illumos.target;
        platform = illumos.platform;
        evidence = illumos.evidence;
        allocation = illumos.allocation;
        ci = some (record {
          job = "coverage";
          runner = Runner.ubuntu;
          toolchains = "nightly" ∷ [];
          coverage = false;
        });
      }
      ∷ [];
}

lost_accepted : validate_registry "1.88.0" quoted lost ≡ ok tt
unfolding validate_registry
lost_accepted = refl

lost_rows :
    get text_order "coverage" (matrices lost)
    ≡ some (
        record { os = "ubuntu-24.04"; target = "x86_64-unknown-linux-gnu"; toolchain = "1.98.1" }
        ∷ [])
unfolding matrices get
lost_rows = refl
