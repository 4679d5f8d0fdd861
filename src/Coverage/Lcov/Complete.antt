-- ===== src/Coverage/Lcov/Complete.antt =====
-- An LCOV report that is complete has an executed record for every line that it names.
use fs2_turbo.Base.{
  ℕ, String, suc, ◌≤◌, ◌==◌, ◌≡◌, refl, not, max, Bool, true, false, ◌&&◌, ◌||◌, Option, none, some,
  List, [], ◌∷◌, length, Bool-cases, inl, inr, arith,
}
use text.Mathlib.TextEquality.{eq_iff}
use fs2_turbo.Coverage.{PhysicalLines, Verdict-cases, pass, reject}
use fs2_turbo.Coverage.Keyed.{KeyLaws, get, get-entry}
use fs2_turbo.Coverage.Lcov.{
  LineKey, LcovLine, line_order, read_line, next_source, add_line, lines_from, count_executed,
  physical_lines, parse_lcov,
}

line_order-KeyLaws : KeyLaws line_order
unfolding line_order
line_order-KeyLaws = record { same_iff = λ j k. ground (arith, eq_iff j.0 k.0) }

-- Whether a line of the report is a record of the key, and one that was executed.
abbrev pub is_record : LineKey → LcovLine → Bool
is_record k (LcovLine.line_data key count) = line_order.same k key
is_record k (LcovLine.source_file path) = false
is_record k LcovLine.end_of_record = false
is_record k LcovLine.other = false

abbrev pub is_executed : LineKey → LcovLine → Bool
is_executed k (LcovLine.line_data key count) = line_order.same k key && not (count == 0)
is_executed k (LcovLine.source_file path) = false
is_executed k LcovLine.end_of_record = false
is_executed k LcovLine.other = false

-- Whether some line of the report is such, each read under the source in force there.
unfoldable pub some_line : (LcovLine → Bool) → ℕ → Option String → List String → Bool
some_line p index source [] = false
some_line p index source (line ∷ rest) = elim (read_line index source line) [
  | pass read ↦ p read || some_line p (suc index) (next_source source read) rest
  | reject r ↦ false
]

abbrev pub is_present : LineKey → List (LineKey × ℕ) → Bool
is_present k lines = elim (get line_order k lines) [ some n ↦ true | none ↦ false ]

abbrev pub is_positive : LineKey → List (LineKey × ℕ) → Bool
is_positive k lines = elim (get line_order k lines) [ some n ↦ not (n == 0) | none ↦ false ]

add_line_reads :
    (k : LineKey) (read : LcovLine) (lines : List (LineKey × ℕ))
    → (is_present k (add_line read lines) ≡ (is_present k lines || is_record k read))
      × (is_positive k (add_line read lines) ≡ (is_positive k lines || is_executed k read))
unfolding add_line
add_line_reads k (LcovLine.line_data key count) lines = elim (Bool-cases (line_order.same k key)) [
  | inl same ↦ rw ((line_order-KeyLaws.same_iff k key).0 same) (
      ground (
        arith,
        get-entry line_order line_order-KeyLaws key key count (λ n. max n count) lines,
        (line_order-KeyLaws.same_iff key key).1 refl,
      ))
  | inr other ↦
      ground
        (arith, other, get-entry line_order line_order-KeyLaws k key count (λ n. max n count) lines)
]
add_line_reads k (LcovLine.source_file path) lines = ground arith
add_line_reads k LcovLine.end_of_record lines = ground arith
add_line_reads k LcovLine.other lines = ground arith

lines_from_reads :
    (k : LineKey) (index : ℕ) (source : Option String) (contents : List String)
    (lines : List (LineKey × ℕ)) {all_lines : List (LineKey × ℕ)}
    → lines_from index source contents lines ≡ pass all_lines
    → (is_present k all_lines
        ≡ (is_present k lines || some_line (is_record k) index source contents))
      × (is_positive k all_lines
          ≡ (is_positive k lines || some_line (is_executed k) index source contents))
unfolding lines_from some_line
lines_from_reads k index source [] lines {all_lines} h = ground arith
lines_from_reads k index source (line ∷ rest) lines {all_lines} h =
    elim (Verdict-cases (read_line index source line)) [
      | inl (read, e) ↦ ground (
        arith,
        e,
        add_line_reads k read lines,
        lines_from_reads k (suc index) (next_source source read) rest (add_line read lines)
            {all_lines = all_lines},
      )
      | inr (r, e) ↦ ground (arith, e)
    ]

count_executed_le : (lines : List (LineKey × ℕ)) → count_executed lines ≤ length lines
unfolding count_executed
count_executed_le [] = omega arith
count_executed_le ((key, count) ∷ lines) = ground (arith, count_executed_le lines)

all_executed :
    (k : LineKey) (lines : List (LineKey × ℕ))
    → count_executed lines ≡ length lines
    → is_present k lines ≡ true
    → is_positive k lines ≡ true
unfolding count_executed get
all_executed k [] h p = ground arith
all_executed k ((key, count) ∷ lines) h p =
    ground
      (arith, count_executed_le lines, all_executed k lines, Bool-cases (line_order.same k key))

physical_lines_counts :
    (lines : List (LineKey × ℕ)) {p : PhysicalLines}
    → physical_lines lines ≡ pass p
    → (p.count ≡ length lines) × (p.covered ≡ count_executed lines)
unfolding physical_lines
physical_lines_counts [] h = ground arith
physical_lines_counts (line ∷ lines) h = ground arith

empty_lines : (k : LineKey) → (is_present k [] ≡ false) × (is_positive k [] ≡ false)
unfolding get
empty_lines k = (refl, refl)

-- When an LCOV report is read and as many lines are covered as there are, every line of a source
-- that some record names has a record with an execution count that is not zero.
pub lcov_complete :
    (contents : List String) (p : PhysicalLines) (k : LineKey)
    → parse_lcov contents ≡ pass p
    → p.covered ≡ p.count
    → some_line (is_record k) 0 none contents ≡ true
    → some_line (is_executed k) 0 none contents ≡ true
unfolding parse_lcov
lcov_complete contents p k h complete named = elim (Verdict-cases (lines_from 0 none contents [])) [
  | inl (lines, e) ↦ ground (
    arith,
    e,
    empty_lines k,
    physical_lines_counts lines {p = p},
    lines_from_reads k 0 none contents [] e,
    all_executed k lines,
  )
  | inr (r, e) ↦ absurd (ground (arith, e))
]
