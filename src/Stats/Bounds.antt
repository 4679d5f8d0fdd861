-- ===== src/Stats/Bounds.antt =====
-- The checks that both platforms make on their counters: `validate_available_bounds` and
-- `validate_granularity` of src/stats/validation.rs.
use fs2_turbo.Base.{ℕ, Result, ok, err, ◌>>◌, fail_if, ltb, ◌==◌, if◌then◌else◌}
use fs2_turbo.Stats.Snapshot.{invalid_stats}

unfoldable pub validate_available_bounds : ℕ → ℕ → ℕ → Result (Unit {0})
validate_available_bounds available free total = do
  fail_if (ltb free available) (invalid_stats "filesystem available space exceeds free space")
  fail_if (ltb total available) (invalid_stats "filesystem available space exceeds total space")
  ok tt

unfoldable pub validate_granularity : ℕ → Result ℕ
validate_granularity allocation_granularity =
    if allocation_granularity == 0
    then err (invalid_stats "filesystem allocation granularity is zero")
    else ok allocation_granularity
