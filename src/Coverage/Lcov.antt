-- ===== src/Coverage/Lcov.antt =====
-- The reading of an LCOV report: `parse_lcov` and `parse_lcov_number` of
-- tools/fs2-dev/src/coverage.rs, on the lines of the report.
pub mod Complete
use fs2_turbo.Base.{
  ℕ, String, suc, ◌+◌, ◌==◌, not, max, Bool, true, false, ◌&&◌, ◌||◌, Option, none, some, List, [],
  ◌∷◌, length, if◌then◌else◌,
}
use mathlib.Core.Option
use Prim.Native.Nat.{compare}
use Prim.Native.String
use Prim.Native.String.{then as and_then, slice, len}
use text.Mathlib.Text
use text.Mathlib.Text.{starts_with}
use fs2_turbo.Coverage.{PhysicalLines, Rejection, Verdict, pass, reject, ◌>>=◌}
use fs2_turbo.Coverage.Keyed.{KeyOrder, entry}
use fs2_turbo.Base.Text.{parse_u64}

-- A source and a line of it.
abbrev pub LineKey : Type 0
LineKey = String × ℕ

unfoldable pub line_order : KeyOrder LineKey
line_order = record {
  same = λ j k. Text.◌==◌ j.0 k.0 && j.1 == k.1;
  before = λ j k. Text.is_lt (and_then (String.compare j.0 k.0) (compare j.1 k.1));
}

unfoldable pub parse_lcov_number : Option String → ℕ → String → Verdict ℕ
parse_lcov_number (some field) index name = elim (parse_u64 field) [
  | some n ↦ pass n
  | none ↦ reject (Rejection.lcov_invalid name (index + 1))
]
parse_lcov_number none index name = reject (Rejection.lcov_missing name (index + 1))

-- The first two answers of `record.split(',')`.
abbrev pub first_field : String → String
first_field record' = elim (Text.find? record' ",") [ some i ↦ slice record' 0 i | none ↦ record' ]

abbrev pub second_field : String → Option String
second_field record' = elim (Text.find? record' ",") [
  | some i ↦ some (first_field (slice record' (i + 1) (len record')))
  | none ↦ none
]

-- What a line does.
pub data LcovLine : Type 0 where
  source_file : String → LcovLine
  line_data : LineKey → ℕ → LcovLine
  end_of_record : LcovLine
  other : LcovLine

unfoldable pub source_line : ℕ → String → Verdict LcovLine
source_line index path =
    if Text.◌==◌ path ""
    then reject (Rejection.lcov_empty_path (index + 1))
    else pass (LcovLine.source_file path)

unfoldable pub data_line : ℕ → Option String → String → Verdict LcovLine
data_line index (some source) record' = do
  line_number ← parse_lcov_number (some (first_field record')) index "line number"
  execution_count ← parse_lcov_number (second_field record') index "execution count"
  pass (LcovLine.line_data (source, line_number) execution_count)
data_line index none record' = reject (Rejection.lcov_no_source (index + 1))

unfoldable pub read_line : ℕ → Option String → String → Verdict LcovLine
read_line index source line =
    if starts_with line "SF:"
    then source_line index (slice line 3 (len line))
    else if starts_with line "DA:"
    then data_line index source (slice line 3 (len line))
    else if Text.◌==◌ line "end_of_record"
    then pass LcovLine.end_of_record
    else pass LcovLine.other

abbrev pub next_source : Option String → LcovLine → Option String
next_source source (LcovLine.source_file path) = some path
next_source source LcovLine.end_of_record = none
next_source source (LcovLine.line_data key count) = source
next_source source LcovLine.other = source

unfoldable pub add_line : LcovLine → List (LineKey × ℕ) → List (LineKey × ℕ)
add_line (LcovLine.line_data key execution_count) lines =
    entry line_order key execution_count (λ count. max count execution_count) lines
add_line (LcovLine.source_file path) lines = lines
add_line LcovLine.end_of_record lines = lines
add_line LcovLine.other lines = lines

unfoldable pub lines_from :
    ℕ → Option String → List String → List (LineKey × ℕ) → Verdict (List (LineKey × ℕ))
lines_from index source [] lines = pass lines
lines_from index source (line ∷ rest) lines = do
  read ← read_line index source line
  lines_from (suc index) (next_source source read) rest (add_line read lines)

unfoldable pub count_executed : List (LineKey × ℕ) → ℕ
count_executed [] = 0
count_executed ((key, count) ∷ lines) =
    if count == 0 then count_executed lines else count_executed lines + 1

unfoldable pub physical_lines : List (LineKey × ℕ) → Verdict PhysicalLines
unfolding count_executed
physical_lines [] = reject Rejection.lcov_no_lines
physical_lines (line ∷ lines) =
    pass (record { count = length (line ∷ lines); covered = count_executed (line ∷ lines) })

unfoldable pub parse_lcov : List String → Verdict PhysicalLines
unfolding lines_from physical_lines
parse_lcov contents = do lines ← lines_from 0 none contents []; physical_lines lines
