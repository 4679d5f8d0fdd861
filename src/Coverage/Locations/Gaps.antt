-- ===== src/Coverage/Locations/Gaps.antt =====
-- The annotations of reviewed gaps: `reviewed_gap` of
-- tools/fs2-dev/src/coverage/source_locations.rs, arm by arm.
use fs2_turbo.Base.{
  ℕ, String, ◌==◌, Bool, false, ◌&&◌, ◌||◌, Option, none, some, List, [], ◌∷◌, if◌then◌else◌,
}
use text.Mathlib.Text

pub record GapReview : Type 0 where
  pub category : String
  pub symbol_fragment : String

-- An arm of the match, with the targets that it lists.
pub record Annotation : Type 0 where
  pub targets : List String
  pub source : String
  pub line : ℕ
  pub column : ℕ
  pub review : GapReview

abbrev pub annotation : List String → String → ℕ → ℕ → String → String → Annotation
annotation targets source line column category fragment = record {
  targets = targets;
  source = source;
  line = line;
  column = column;
  review = record { category = category; symbol_fragment = fragment };
}

abbrev pub windows : String
windows = "x86_64-pc-windows-msvc"

abbrev pub linux : String
linux = "x86_64-unknown-linux-gnu"

abbrev pub macos : String
macos = "aarch64-apple-darwin"

abbrev pub annotations : List Annotation
annotations =
    annotation (windows ∷ linux ∷ macos ∷ []) "src/stats.rs" 20 1 "defensive-boundary"
      "13invalid_stats"
    ∷ annotation (linux ∷ macos ∷ []) "src/stats/validation.rs" 65 24 "defensive-boundary"
        "22validate_unix_counters"
    ∷ annotation (linux ∷ macos ∷ []) "src/unix/allocation.rs" 91 1 "defensive-boundary"
        "23allocated_size_overflow"
    ∷ annotation (linux ∷ []) "src/allocation.rs" 73 1 "backend-inapplicable"
        "33extend_file_length_after_snapshot"
    ∷ annotation (linux ∷ []) "src/allocation.rs" 77 40 "backend-inapplicable"
        "33extend_file_length_after_snapshot"
    ∷ annotation (linux ∷ []) "src/allocation.rs" 83 1 "backend-inapplicable"
        "38extend_file_length_after_snapshot_with"
    ∷ annotation (windows ∷ []) "src/windows/stats/legacy.rs" 116 1 "defensive-boundary"
        "23byte_space_domain_error"
    ∷ annotation (windows ∷ []) "src/windows/stats/modern.rs" 143 1 "defensive-boundary"
        "20stats_overflow_error"
    ∷ annotation (windows ∷ []) "src/windows/allocation.rs" 340 55 "pending-io-candidate"
        "28overlapped_device_io_control"
    ∷ annotation (windows ∷ []) "src/windows/allocation.rs" 368 1 "pending-io-candidate"
        "23wait_for_device_control"
    ∷ annotation (windows ∷ []) "src/windows/overlapped.rs" 43 5 "pending-io-candidate"
        "17PrivateOverlapped5state"
    ∷ annotation (windows ∷ []) "src/stats/counters.rs" 70 5 "legacy-provider-candidate"
        "20windows_legacy_bytes"
    ∷ annotation (windows ∷ []) "src/windows/stats/legacy.rs" 8 1 "legacy-provider-candidate"
        "14legacy_statvfs"
    ∷ annotation (windows ∷ []) "src/windows/stats/legacy.rs" 12 1 "legacy-provider-candidate"
        "29legacy_statvfs_after_geometry"
    ∷ annotation (windows ∷ []) "src/windows/stats/legacy.rs" 33 1 "legacy-provider-candidate"
        "12legacy_space"
    ∷ annotation (windows ∷ []) "src/windows/stats/legacy.rs" 42 1 "legacy-provider-candidate"
        "16cluster_geometry"
    ∷ annotation (windows ∷ []) "src/windows/stats/legacy.rs" 61 1 "legacy-provider-candidate"
        "23cluster_geometry_result"
    ∷ annotation (windows ∷ []) "src/windows/stats/legacy.rs" 75 1 "legacy-provider-candidate"
        "10byte_space"
    ∷ annotation (windows ∷ []) "src/windows/stats/legacy.rs" 97 1 "legacy-provider-candidate"
        "17byte_space_result"
    ∷ []

abbrev pub one_of : String → List String → Bool
one_of target [] = false
one_of target (t ∷ targets) = Text.◌==◌ target t || one_of target targets

abbrev pub applies : String → String → ℕ → ℕ → Annotation → Bool
applies target source line column a =
    one_of target a.targets && Text.◌==◌ source a.source && line == a.line && column == a.column

-- The first arm that applies.
unfoldable pub first_review : String → String → ℕ → ℕ → List Annotation → Option GapReview
first_review target source line column [] = none
first_review target source line column (a ∷ arms) =
    let rest = first_review target source line column arms in
    if applies target source line column a then some a.review else rest

unfoldable pub reviewed_gap : String → String → ℕ → ℕ → Option GapReview
reviewed_gap target source line column = first_review target source line column annotations
