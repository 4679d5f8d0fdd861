-- ===== src/Coverage/Locations.antt =====
-- The review of locations that a profile does not execute: `summarize`, `validate` and
-- `reviewed_gap` of tools/fs2-dev/src/coverage/source_locations.rs.
pub mod Gaps
pub mod Explained
pub mod Reviewed
use fs2_turbo.Base.{
  ℕ, String, suc, ◌+◌, ◌==◌, ltb, not, Bool, true, false, ◌&&◌, ◌||◌, Option, none, some, List, [],
  ◌∷◌, ◌++◌, map, length, if◌then◌else◌,
}
use Prim.Native.Nat.{compare}
use Prim.Native.String
use Prim.Native.String.{then as and_then}
use text.Mathlib.Text
use fs2_turbo.Coverage.{Metric, Rejection, Verdict, pass, reject, ◌>>◌, reject_if}
use fs2_turbo.Coverage.Keyed.{KeyOrder, get, entry}
use fs2_turbo.Coverage.Groups.{DefinitionKey, DefinitionGroupState, Groups, key_order}
use fs2_turbo.Coverage.Locations.Gaps.{GapReview, reviewed_gap}

abbrev pub Location : Type 0
Location = String × ℕ × ℕ

-- `LocationMember`.
abbrev pub Member : Type 0
Member = ℕ × DefinitionKey × DefinitionGroupState

pub record SourceLocationRecord : Type 0 where
  pub source : String
  pub line : ℕ
  pub column : ℕ
  pub executed : Bool
  pub definition_indexes : List ℕ
  pub uncovered_definition_indexes : List ℕ
  pub all_uncovered_topologies_unit_owned : Option Bool
  pub reviewed_integration_gap : Option GapReview

pub record SourceLocationExecutionUnion : Type 0 where
  pub policy_enforced : Bool
  pub locations : Metric
  pub multi_topology_locations : ℕ
  pub uncovered_groups_with_executed_location : ℕ
  pub gap_review_baseline : String
  pub records : List SourceLocationRecord

-- The derived `Eq` and `Ord` of the triple.
unfoldable pub location_order : KeyOrder Location
location_order = record {
  same = λ j k. Text.◌==◌ j.0 k.0 && j.1 == k.1 && j.2 == k.2;
  before = λ j k.
      Text.is_lt (and_then (String.compare j.0 k.0) (and_then (compare j.1 k.1) (compare j.2 k.2)));
}

abbrev pub location_of : DefinitionKey → Location
location_of key = (key.filename, key.line, key.column)

-- The first loop of `summarize`; `enumerate` counts from `index`.
unfoldable pub locations_from :
    ℕ → Groups → List (Location × List Member) → List (Location × List Member)
locations_from index [] locations = locations
locations_from index ((key, state) ∷ groups) locations = locations_from (suc index) groups (
    entry location_order (location_of key) [] (λ members. members ++ (index, key, state) ∷ [])
      locations)

abbrev pub is_covered : Member → Bool
is_covered member = not (member.2.covered_entries == 0)

unfoldable pub any_covered : List Member → Bool
any_covered [] = false
any_covered (member ∷ members) = is_covered member || any_covered members

unfoldable pub uncovered_indexes : List Member → List ℕ
uncovered_indexes [] = []
uncovered_indexes (member ∷ members) =
    let rest = uncovered_indexes members in if is_covered member then rest else member.0 ∷ rest

-- `units.get(*key).is_some_and(|state| state.covered_entries != 0)`.
abbrev pub is_unit_owned : Groups → DefinitionKey → Bool
is_unit_owned units key = elim (get key_order key units) [
  | some state ↦ not (state.covered_entries == 0)
  | none ↦ false
]

unfoldable pub all_uncovered_owned : Groups → List Member → Bool
all_uncovered_owned units [] = true
all_uncovered_owned units (member ∷ members) =
    (is_covered member || is_unit_owned units member.1) && all_uncovered_owned units members

unfoldable pub unit_ownership : Option Groups → List Member → List ℕ → Option Bool
unit_ownership unit_groups members [] = none
unit_ownership (some units) members (index ∷ indexes) = some (all_uncovered_owned units members)
unit_ownership none members (index ∷ indexes) = none

unfoldable pub all_contain : String → List String → Bool
all_contain fragment [] = true
all_contain fragment (symbol ∷ symbols) =
    (elim (Text.find? symbol fragment) [ some i ↦ true | none ↦ false ])
    && all_contain fragment symbols

abbrev pub symbols_reviewed : String → List String → Bool
symbols_reviewed fragment [] = false
symbols_reviewed fragment (symbol ∷ symbols) = all_contain fragment (symbol ∷ symbols)

unfoldable pub members_reviewed : GapReview → List Member → Bool
members_reviewed review [] = true
members_reviewed review (member ∷ members) =
    symbols_reviewed review.symbol_fragment member.2.symbols && members_reviewed review members

-- `filter`.
abbrev pub keep_review : List Member → Option GapReview → Option GapReview
keep_review members none = none
keep_review members (some review) = if members_reviewed review members then some review else none

abbrev pub is_true : Option Bool → Bool
is_true (some b) = b
is_true none = false

-- The closure that makes a record.
unfoldable pub record_of :
    String → String → Option Groups → Location × List Member → SourceLocationRecord
unfolding any_covered uncovered_indexes unit_ownership members_reviewed
record_of target profile unit_groups (location, members) =
    let executed = any_covered members in
    let uncovered = uncovered_indexes members in
    let owned = unit_ownership unit_groups members uncovered in
    record {
      source = location.0;
      line = location.1;
      column = location.2;
      executed = executed;
      definition_indexes = map (λ member. member.0) members;
      uncovered_definition_indexes = uncovered;
      all_uncovered_topologies_unit_owned = owned;
      reviewed_integration_gap =
          if Text.◌==◌ profile "integration" && not executed && is_true owned
          then keep_review members (reviewed_gap target location.0 location.1 location.2)
          else none;
    }

unfoldable pub count_records : (SourceLocationRecord → Bool) → List SourceLocationRecord → ℕ
count_records p [] = 0
count_records p (r ∷ records) = if p r then count_records p records + 1 else count_records p records

unfoldable pub uncovered_at_executed : List SourceLocationRecord → ℕ
uncovered_at_executed [] = 0
uncovered_at_executed (r ∷ records) =
    if r.executed
    then length r.uncovered_definition_indexes + uncovered_at_executed records
    else uncovered_at_executed records

abbrev pub union_of : List SourceLocationRecord → SourceLocationExecutionUnion
union_of records = record {
  policy_enforced = true;
  locations = record { count = length records; covered = count_records (λ r. r.executed) records };
  multi_topology_locations = count_records (λ r. ltb 1 (length r.definition_indexes)) records;
  uncovered_groups_with_executed_location = uncovered_at_executed records;
  gap_review_baseline = "ed77262b7f6e2fd7892b82cebd2a12a8987148f1";
  records = records;
}

unfoldable pub summarize : String → String → Groups → Option Groups → SourceLocationExecutionUnion
unfolding locations_from record_of
summarize target profile groups unit_groups =
    union_of (map (record_of target profile unit_groups) (locations_from 0 groups []))

-- A record that the integration profile accepts.
abbrev pub is_accepted : SourceLocationRecord → Bool
is_accepted r =
    r.executed
    || (is_true r.all_uncovered_topologies_unit_owned
        && (elim r.reviewed_integration_gap [ some review ↦ true | none ↦ false ]))

unfoldable pub unreviewed_locations : List SourceLocationRecord → List Location
unreviewed_locations [] = []
unreviewed_locations (r ∷ records) =
    let rest = unreviewed_locations records in
    if is_accepted r then rest else (r.source, r.line, r.column) ∷ rest

abbrev pub integration_result : String → List Location → Verdict (Unit {0})
integration_result target [] = pass tt
integration_result target (location ∷ unreviewed) =
    reject (Rejection.unreviewed target (location ∷ unreviewed))

unfoldable pub validate : SourceLocationExecutionUnion → String → String → Verdict (Unit {0})
unfolding unreviewed_locations
validate union target profile =
    reject_if (union.locations.count == 0) (Rejection.empty_union target profile)
    >> (if Text.◌==◌ profile "combined" || Text.◌==◌ profile "unit"
        then pass tt
        else if Text.◌==◌ profile "integration"
        then integration_result target (unreviewed_locations union.records)
        else reject (Rejection.unsupported_profile profile))
