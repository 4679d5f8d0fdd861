-- ===== src/Matrix/Generated.antt =====
-- The matrices of the jobs: `matrices` of tools/fs2-dev/src/matrix.rs.
pub mod Rows
use Prim.Native.String
use text.Mathlib.Text
use text.Mathlib.Text.{is_lt}
use fs2_turbo.Base.{String, Bool, if◌then◌else◌, List, [], ◌∷◌, ◌++◌, map, Option, none, some}
use fs2_turbo.Coverage.Keyed.{KeyOrder, entry}
use fs2_turbo.Matrix.{CiSpec, TargetSpec, SupportRegistry, MatrixEntry, as_str, coverage_as_str}

-- The order of texts, by their bytes.
abbrev pub text_order : KeyOrder String
text_order = record { same = Text.◌==◌; before = λ s t. is_lt (String.compare s t) }

unfoldable pub row : String → CiSpec → String → MatrixEntry
unfolding as_str
row target ci toolchain = record { os = as_str ci.runner; target = target; toolchain = toolchain }

unfoldable pub add_target :
    TargetSpec → List (String × List MatrixEntry) → List (String × List MatrixEntry)
unfolding row entry
add_target spec generated = elim spec.ci [
  | none ↦ generated
  | some ci ↦
      entry text_order ci.job [] (λ include. include ++ map (row spec.target ci) ci.toolchains)
        generated
]

unfoldable pub add_targets :
    List TargetSpec → List (String × List MatrixEntry) → List (String × List MatrixEntry)
unfolding add_target
add_targets [] generated = generated
add_targets (spec ∷ targets) generated = add_targets targets (add_target spec generated)

unfoldable pub coverage_rows : String → List TargetSpec → List MatrixEntry
unfolding coverage_as_str
coverage_rows toolchain [] = []
coverage_rows toolchain (spec ∷ targets) =
    let rest = coverage_rows toolchain targets in
    elim spec.ci [
      | none ↦ rest
      | some ci ↦
          if ci.coverage
          then record {
            os = coverage_as_str ci.runner;
            target = spec.target;
            toolchain = toolchain;
          }
            ∷ rest
          else rest
    ]

-- The matrix of the coverage takes the place of one that is there by that name.
unfoldable pub matrices : SupportRegistry → List (String × List MatrixEntry)
unfolding add_targets coverage_rows entry
matrices registry =
    entry text_order "coverage" [] (λ _. coverage_rows registry.coverage_toolchain registry.targets)
      (add_targets registry.targets [])
