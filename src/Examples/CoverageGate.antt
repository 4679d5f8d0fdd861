-- ===== src/Examples/CoverageGate.antt =====
-- A report of the Linux target: one definition with two instantiations, which only the unit profile
-- executes.
use fs2_turbo.Base.{none, ℕ, String, ◌<◌, ◌≡◌, ◌≢◌, ◌⊎◌, refl, true, some, List, [], ◌∷◌, arith}
use fs2_turbo.Coverage.{Metric, PhysicalLines, pass}
use fs2_turbo.Coverage.Policy.{CoveragePolicy, Totals, policy_for_target}
use fs2_turbo.Coverage.Policy as CoveragePolicies
use fs2_turbo.Coverage.Policy.Complete.{validate-iff_MeetsPolicy}
use fs2_turbo.Coverage.Lcov.{
  parse_lcov, read_line, source_line, data_line, parse_lcov_number, add_line, line_order,
}
use fs2_turbo.Base.Text.{parse_u64, unsigned_digits, digits}
use fs2_turbo.Coverage.Lcov.Complete.{some_line, is_record, is_executed, lcov_complete}
use fs2_turbo.Coverage.SourcePath.{normalize_source_path, replace_backslashes}
use fs2_turbo.Coverage.Groups.{
  FunctionCoverage, DefinitionKey, Groups, definition_groups, definition_key, add_entry, key_order,
  insert_symbol,
}
use fs2_turbo.Coverage.Keyed.{entry, get}
use fs2_turbo.Coverage.Groups.Counts.{instantiations, executed, group_of, definition_groups_count}
use fs2_turbo.Coverage.Groups.Owned.{validate_ownership, unowned_definitions, residuals_owned}
use fs2_turbo.Coverage.Locations.{
  Location, summarize, validate, location_order, all_uncovered_owned, all_contain,
}
use fs2_turbo.Coverage.Locations.Gaps.{reviewed_gap, first_review}
use fs2_turbo.Coverage.Locations.Reviewed.{SomeExecuted}
use fs2_turbo.Coverage.Locations.Explained.{IsReviewed, members_at, gaps_explained}

abbrev linux : String
linux = "x86_64-unknown-linux-gnu"

abbrev policy : CoveragePolicy
policy = record {
  minimum_unique_lines = 560;
  minimum_aggregate_lines = 572;
  minimum_regions = 837;
  minimum_functions = 104;
  maximum_uncovered_regions = 0;
}

abbrev full : ℕ → Metric
full n = record { count = n; covered = n }

abbrev totals : Totals
totals = record {
  functions = full 104;
  instantiations = record { count = 200; covered = 190 };
  lines = full 572;
  regions = full 900;
}

abbrev lines : PhysicalLines
lines = record { count = 560; covered = 560 }

linux_accepted : CoveragePolicies.validate linux policy totals lines ≡ pass tt
unfolding CoveragePolicies.validate
linux_accepted = refl

validate-iff_MeetsPolicy_example : CoveragePolicies.validate linux policy totals lines ≡ pass tt
validate-iff_MeetsPolicy_example = (validate-iff_MeetsPolicy linux policy totals lines).1 (
  omega arith,
  refl,
  omega arith,
  refl,
  omega arith,
  omega arith,
  omega arith,
  omega arith,
  refl,
  omega arith,
)

policy_is_found : policy_for_target linux ≡ pass policy
unfolding policy_for_target
policy_is_found = refl

-- Two instantiations of a function, by their names and counts.
abbrev instantiation : String → ℕ → FunctionCoverage
instantiation name count = record {
  name = name;
  count = count;
  filenames = ".\\src\\allocation.rs" ∷ [];
  regions = (83 ∷ 1 ∷ 95 ∷ 2 ∷ count ∷ 0 ∷ 0 ∷ 0 ∷ []) ∷ [];
}

abbrev unit_functions : List FunctionCoverage
unit_functions =
    instantiation "_R38extend_file_length_after_snapshot_with_a" 0
    ∷ instantiation "_R38extend_file_length_after_snapshot_with_b" 5
    ∷ []

abbrev integration_functions : List FunctionCoverage
integration_functions = instantiation "_R38extend_file_length_after_snapshot_with_c" 0 ∷ []

abbrev key : DefinitionKey
key = record {
  filename = "src/allocation.rs";
  line = 83;
  column = 1;
  regions =
      record { start_line = 83; start_column = 1; end_line = 95; end_column = 2; kind = 0 } ∷ [];
}

abbrev unit_groups : Groups
unit_groups =
    (
      key,
      record {
        entries = 2;
        covered_entries = 1;
        symbols =
            "_R38extend_file_length_after_snapshot_with_a"
            ∷ "_R38extend_file_length_after_snapshot_with_b" ∷ [];
      },
    )
    ∷ []

abbrev integration_groups : Groups
integration_groups =
    (
      key,
      record {
        entries = 1;
        covered_entries = 0;
        symbols = "_R38extend_file_length_after_snapshot_with_c" ∷ [];
      },
    )
    ∷ []

unit_grouped : definition_groups unit_functions ≡ pass unit_groups
unfolding definition_groups definition_key normalize_source_path replace_backslashes add_entry entry
    key_order insert_symbol
unit_grouped = refl

integration_grouped : definition_groups integration_functions ≡ pass integration_groups
unfolding definition_groups definition_key normalize_source_path replace_backslashes add_entry entry
    insert_symbol
integration_grouped = refl

definition_groups_count_example :
    ((group_of key unit_groups).entries ≡ 2) × ((group_of key unit_groups).covered_entries ≡ 1)
unfolding definition_key normalize_source_path replace_backslashes key_order
definition_groups_count_example = definition_groups_count key unit_functions unit_grouped

ownership_accepted : validate_ownership linux unit_groups integration_groups ≡ pass tt
unfolding validate_ownership unowned_definitions key_order get
ownership_accepted = refl

some_instantiation : 0 < instantiations key integration_functions
unfolding definition_key normalize_source_path replace_backslashes key_order
some_instantiation = omega arith

none_executed : executed key integration_functions ≡ 0
unfolding definition_key normalize_source_path replace_backslashes key_order
none_executed = refl

abbrev location : Location
location = ("src/allocation.rs", 83, 1)

union_accepted :
    validate
      (summarize linux "integration" integration_groups (some unit_groups))
      linux
      "integration"
    ≡ pass tt
unfolding validate summarize entry all_uncovered_owned key_order reviewed_gap first_review
    all_contain
union_accepted = refl

some_member : members_at location 0 integration_groups ≢ []
unfolding members_at location_order
some_member = ground arith

residuals_owned_example : 0 < executed key unit_functions
residuals_owned_example =
    residuals_owned linux unit_functions integration_functions key unit_grouped integration_grouped
      ownership_accepted some_instantiation none_executed

gaps_explained_example :
    SomeExecuted (members_at location 0 integration_groups)
    ⊎ IsReviewed linux unit_groups location (members_at location 0 integration_groups)
gaps_explained_example =
    gaps_explained linux integration_groups unit_groups location union_accepted some_member

abbrev report : List String
report = "SF:src/lib.rs" ∷ "DA:10,0" ∷ "DA:10,2,x" ∷ "end_of_record" ∷ []

report_read : parse_lcov report ≡ pass (record { count = 1; covered = 1 })
unfolding parse_lcov read_line source_line data_line parse_lcov_number parse_u64 unsigned_digits
    digits add_line entry line_order
report_read = refl

line_named : some_line (is_record ("src/lib.rs", 10)) 0 none report ≡ true
unfolding some_line read_line source_line data_line parse_lcov_number parse_u64 unsigned_digits
    digits line_order
line_named = refl

lcov_complete_example : some_line (is_executed ("src/lib.rs", 10)) 0 none report ≡ true
lcov_complete_example =
    lcov_complete report (record { count = 1; covered = 1 }) ("src/lib.rs", 10) report_read refl
      line_named
