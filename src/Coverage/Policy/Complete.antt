-- ===== src/Coverage/Policy/Complete.antt =====
-- What a report that the gate accepts has.
use fs2_turbo.Base.{String, ◌+◌, ◌≤◌, ◌<◌, ◌≡◌, ◌↔◌, arith}
use fs2_turbo.Coverage.{PhysicalLines, pass}
use fs2_turbo.Coverage.Policy.{CoveragePolicy, Totals, validate, policy_for_target}

abbrev pub MeetsPolicy : CoveragePolicy → Totals → PhysicalLines → Type 0
MeetsPolicy p t lines =
    (p.minimum_unique_lines ≤ lines.count)
    × (lines.covered ≡ lines.count)
    × (p.minimum_aggregate_lines ≤ t.lines.count)
    × (t.lines.covered ≡ t.lines.count)
    × (p.minimum_regions ≤ t.regions.count)
    × (t.regions.covered ≤ t.regions.count)
    × (t.regions.count ≤ t.regions.covered + p.maximum_uncovered_regions)
    × (p.minimum_functions ≤ t.functions.count)
    × (t.functions.covered ≡ t.functions.count)
    × (t.instantiations.covered ≤ t.instantiations.count)

-- The gate accepts a report exactly when the lines, aggregate lines, regions and functions reach
-- their floors, no line or function is uncovered, no more regions are uncovered than the policy
-- allows, and no count has more covered than it has.
pub validate-iff_MeetsPolicy :
    (target : String) (p : CoveragePolicy) (t : Totals) (lines : PhysicalLines)
    → (validate target p t lines ≡ pass tt) ↔ MeetsPolicy p t lines
unfolding validate
validate-iff_MeetsPolicy target p t lines = (λ h. ground arith, λ h. ground arith)

-- On every target that has a policy, a report that the gate accepts has no uncovered region, and
-- at least one line and one function.
pub validate-policy_for_target :
    (target : String) {p : CoveragePolicy} (t : Totals) (lines : PhysicalLines)
    → policy_for_target target ≡ pass p
    → validate target p t lines ≡ pass tt
    → (t.regions.covered ≡ t.regions.count) × (0 < lines.count) × (0 < t.functions.count)
unfolding policy_for_target
validate-policy_for_target target {p} t lines known h =
    ground (arith, validate-iff_MeetsPolicy target p t lines)
