-- ===== src/Coverage/SourcePath.antt =====
-- `normalize_source_path` of tools/fs2-dev/src/coverage.rs.
use Prim.Native.String.{String, [], ◌∷◌, len, slice}
use Prim.Native.Char.{code}
use text.Mathlib.Text.{starts_with}
use fs2_turbo.Base.{Option, none, some, ◌==◌, ◌||◌, ◌≡◌, refl, if◌then◌else◌}

-- `replace('\\', "/")`.
unfoldable pub replace_backslashes : String → String
replace_backslashes [] = []
replace_backslashes (c ∷ s) =
    let rest = replace_backslashes s in if code c == b'\\' then "/" ∷ rest else c ∷ rest

unfoldable pub normalize_source_path : String → Option String
normalize_source_path filename =
    let normalized = replace_backslashes filename in
    let relative =
      if starts_with normalized "./" then slice normalized 2 (len normalized) else normalized in
    if starts_with relative "src/" || starts_with relative "tests/" then some relative else none

normalizes : normalize_source_path ".\\src\\lib.rs" ≡ some "src/lib.rs"
unfolding normalize_source_path replace_backslashes
normalizes = refl

refuses_others : normalize_source_path "/rustc/library/core/src/lib.rs" ≡ none
unfolding normalize_source_path replace_backslashes
refuses_others = refl
