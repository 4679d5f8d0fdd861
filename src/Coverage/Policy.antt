-- ===== src/Coverage/Policy.antt =====
-- The floors of a target and the check of a report against them: `policy_for_target`, `validate`
-- and their helpers in tools/fs2-dev/src/coverage.rs.
pub mod Complete
use fs2_turbo.Base.{ℕ, String, ltb, leb, not, ◌==◌, ◌-◌, if◌then◌else◌}
use text.Mathlib.Text
use fs2_turbo.Coverage.{
  Metric, PhysicalLines, Rejection, Verdict, pass, reject, ◌>>=◌, ◌>>◌, reject_if,
}

pub record Totals : Type 0 where
  pub functions : Metric
  pub instantiations : Metric
  pub lines : Metric
  pub regions : Metric

pub record CoveragePolicy : Type 0 where
  pub minimum_unique_lines : ℕ
  pub minimum_aggregate_lines : ℕ
  pub minimum_regions : ℕ
  pub minimum_functions : ℕ
  pub maximum_uncovered_regions : ℕ

unfoldable pub policy_for_target : String → Verdict CoveragePolicy
policy_for_target target =
    if Text.◌==◌ target "x86_64-pc-windows-msvc"
    then pass (record {
      minimum_unique_lines = 1248;
      minimum_aggregate_lines = 1268;
      minimum_regions = 1672;
      minimum_functions = 176;
      maximum_uncovered_regions = 0;
    })
    else if Text.◌==◌ target "x86_64-unknown-linux-gnu"
    then pass (record {
      minimum_unique_lines = 560;
      minimum_aggregate_lines = 572;
      minimum_regions = 837;
      minimum_functions = 104;
      maximum_uncovered_regions = 0;
    })
    else if Text.◌==◌ target "aarch64-apple-darwin"
    then pass (record {
      minimum_unique_lines = 526;
      minimum_aggregate_lines = 538;
      minimum_regions = 763;
      minimum_functions = 99;
      maximum_uncovered_regions = 0;
    })
    else reject (Rejection.no_policy target)

-- `checked_sub`.
unfoldable pub uncovered : Metric → String → Verdict ℕ
uncovered metric name =
    if leb metric.covered metric.count
    then pass (metric.count - metric.covered)
    else reject (Rejection.more_covered name)

unfoldable pub metric_lines : Metric → Verdict PhysicalLines
unfolding uncovered
metric_lines metric = do
  uncovered metric "coverage metric"
  pass (record { count = metric.count; covered = metric.covered })

unfoldable pub require_minimum : String → String → ℕ → ℕ → Verdict (Unit {0})
require_minimum target name actual minimum =
    reject_if (ltb actual minimum) (Rejection.too_few target name actual minimum)

unfoldable pub require_complete : String → String → PhysicalLines → Verdict (Unit {0})
require_complete target name lines =
    reject_if (not (lines.covered == lines.count)) (Rejection.incomplete target name lines)

unfoldable pub validate : String → CoveragePolicy → Totals → PhysicalLines → Verdict (Unit {0})
unfolding uncovered metric_lines require_minimum require_complete
validate target policy totals physical_lines = do
  require_minimum target "unique physical lines" physical_lines.count policy.minimum_unique_lines
  require_complete target "unique physical lines" physical_lines
  require_minimum target "LLVM aggregate lines" totals.lines.count policy.minimum_aggregate_lines
  lines ← metric_lines totals.lines
  require_complete target "LLVM aggregate lines" lines
  require_minimum target "regions" totals.regions.count policy.minimum_regions
  uncovered_regions ← uncovered totals.regions "regions"
  reject_if (ltb policy.maximum_uncovered_regions uncovered_regions)
      (Rejection.uncovered_regions target uncovered_regions policy.maximum_uncovered_regions)
  require_minimum target "functions" totals.functions.count policy.minimum_functions
  functions ← metric_lines totals.functions
  require_complete target "functions" functions
  uncovered totals.instantiations "instantiations"
  pass tt
