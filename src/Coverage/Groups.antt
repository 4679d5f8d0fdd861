-- ===== src/Coverage/Groups.antt =====
-- Groups of instantiations with one source definition: `definition_key`, `definition_groups` and
-- the ownership of residuals in tools/fs2-dev/src/coverage.rs.
pub mod Counts
pub mod Owned
use fs2_turbo.Base.{
  ℕ, String, suc, ◌+◌, ◌==◌, not, Bool, true, false, ◌&&◌, Option, none, some, List, [], ◌∷◌,
  get_elem?, get_or, if◌then◌else◌,
}
use text.Mathlib.Text
use fs2_turbo.Coverage.{Rejection, Verdict, pass, reject, ◌>>=◌}
use Prim.Native.Nat.{Ordering, compare}
use Prim.Native.String
use Prim.Native.String.{then as and_then}
use fs2_turbo.Coverage.SourcePath.{normalize_source_path}
use fs2_turbo.Coverage.Keyed.{KeyOrder, get, entry}

pub record FunctionCoverage : Type 0 where
  pub name : String
  pub count : ℕ
  pub filenames : List String
  pub regions : List (List ℕ)

pub record Region : Type 0 where
  pub start_line : ℕ
  pub start_column : ℕ
  pub end_line : ℕ
  pub end_column : ℕ
  pub kind : ℕ

pub record DefinitionKey : Type 0 where
  pub filename : String
  pub line : ℕ
  pub column : ℕ
  pub regions : List Region

pub record DefinitionGroupState : Type 0 where
  pub entries : ℕ
  pub covered_entries : ℕ
  pub symbols : List String

abbrev pub first : {A : Type 0} → List A → Option A
first [] = none
first (x ∷ xs) = some x

-- `region.get(7) == Some(&0)`.
abbrev pub is_code : List ℕ → Bool
is_code region = elim (get_elem? region 7) [ some kind ↦ kind == 0 | none ↦ false ]

-- `find`.
unfoldable pub find_code : List (List ℕ) → Option (List ℕ)
find_code [] = none
find_code (region ∷ regions) =
    let rest = find_code regions in if is_code region then some region else rest

unfoldable pub region_values : List ℕ → Verdict Region
region_values (a ∷ b ∷ c ∷ d ∷ e ∷ f ∷ g ∷ kind ∷ more) =
    pass (record { start_line = a; start_column = b; end_line = c; end_column = d; kind = kind })
region_values region = reject Rejection.malformed_region

unfoldable pub collect_regions : List (List ℕ) → Verdict (List Region)
unfolding region_values
collect_regions [] = pass []
collect_regions (region ∷ regions) = do
  values ← region_values region
  rest ← collect_regions regions
  pass (values ∷ rest)

unfoldable pub key_at : String → List (List ℕ) → Option (List ℕ) → Verdict (Option DefinitionKey)
unfolding collect_regions
key_at filename regions (some start) = do
  regions ← collect_regions regions
  pass (
      some (record {
        filename = filename;
        line = get_or 0 start 0;
        column = get_or 0 start 1;
        regions = regions;
      }))
key_at filename regions none = pass none

unfoldable pub key_in : Option String → List (List ℕ) → Verdict (Option DefinitionKey)
unfolding key_at find_code
key_in (some filename) regions = key_at filename regions (find_code regions)
key_in none regions = pass none

unfoldable pub definition_key : FunctionCoverage → Verdict (Option DefinitionKey)
unfolding key_in
definition_key function = elim (first function.filenames) [
  | some filename ↦ key_in (normalize_source_path filename) function.regions
  | none ↦ pass none
]

-- The derived `Eq` and `Ord` of the key, field by field.
unfoldable pub same_regions : List Region → List Region → Bool
same_regions [] [] = true
same_regions (r ∷ rs) (q ∷ qs) =
    let rest = same_regions rs qs in
    r.start_line == q.start_line
    && r.start_column == q.start_column
    && r.end_line == q.end_line
    && r.end_column == q.end_column
    && r.kind == q.kind
    && rest
same_regions rs qs = false

unfoldable pub compare_regions : List Region → List Region → Ordering
compare_regions [] [] = Ordering.eq
compare_regions [] (q ∷ qs) = Ordering.lt
compare_regions (r ∷ rs) [] = Ordering.gt
compare_regions (r ∷ rs) (q ∷ qs) = and_then (compare r.start_line q.start_line) (
    and_then (compare r.start_column q.start_column) (
      and_then (compare r.end_line q.end_line) (
        and_then (compare r.end_column q.end_column)
          (and_then (compare r.kind q.kind) (compare_regions rs qs)))))

unfoldable pub key_order : KeyOrder DefinitionKey
unfolding same_regions compare_regions
key_order = record {
  same = λ j k.
      Text.◌==◌ j.filename k.filename
      && j.line == k.line
      && j.column == k.column
      && same_regions j.regions k.regions;
  before = λ j k. Text.is_lt (
      and_then (String.compare j.filename k.filename) (
        and_then (compare j.line k.line)
          (and_then (compare j.column k.column) (compare_regions j.regions k.regions))));
}

abbrev pub Groups : Type 0
Groups = List (DefinitionKey × DefinitionGroupState)

-- `BTreeSet::insert`.
unfoldable pub insert_symbol : String → List String → List String
insert_symbol name [] = name ∷ []
insert_symbol name (s ∷ symbols) =
    let rest = insert_symbol name symbols in
    if Text.◌==◌ name s
    then s ∷ symbols
    else if Text.is_lt (String.compare name s)
    then name ∷ s ∷ symbols
    else s ∷ rest

abbrev pub empty_group : DefinitionGroupState
empty_group = record { entries = 0; covered_entries = 0; symbols = [] }

unfoldable pub count_entry : FunctionCoverage → DefinitionGroupState → DefinitionGroupState
count_entry function group = record {
  entries = group.entries + 1;
  covered_entries =
      if function.count == 0 then group.covered_entries else group.covered_entries + 1;
  symbols = insert_symbol function.name group.symbols;
}

unfoldable pub add_entry : Option DefinitionKey → FunctionCoverage → Groups → Groups
unfolding count_entry
add_entry (some key) function groups = entry key_order key empty_group (count_entry function) groups
add_entry none function groups = groups

-- The loop of `definition_groups`.
unfoldable pub groups_from : List FunctionCoverage → Groups → Verdict Groups
groups_from [] groups = pass groups
groups_from (function ∷ functions) groups = do
  key ← definition_key function
  groups_from functions (add_entry key function groups)

unfoldable pub definition_groups : List FunctionCoverage → Verdict Groups
unfolding groups_from
definition_groups functions = groups_from functions []
