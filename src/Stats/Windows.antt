-- ===== src/Stats/Windows.antt =====
-- The counters that the Windows providers report, in bytes: the Windows half of
-- src/stats/counters.rs and of src/stats/validation.rs.
pub mod Laws
use fs2_turbo.Base.{ℕ, Bool, true, false, Result, ok, ◌>>=◌, ◌>>◌, map_ok, fail_if, ltb, ◌&&◌}
use fs2_turbo.Stats.Snapshot.{SpaceKind, FsStats, from_parts, invalid_stats}
use fs2_turbo.Stats.Bounds.{validate_available_bounds, validate_granularity}

pub data WindowsCounterSource : Type 0 where
  modern legacy : WindowsCounterSource

pub record FilesystemCounters : Type 0 where
  pub allocation_granularity : ℕ
  pub free_space : ℕ
  pub available_space : ℕ
  pub total_space : ℕ
  pub source : WindowsCounterSource

abbrev pub windows_bytes : ℕ → ℕ → ℕ → ℕ → WindowsCounterSource → FilesystemCounters
windows_bytes g f a t s = record {
  allocation_granularity = g;
  free_space = f;
  available_space = a;
  total_space = t;
  source = s;
}

abbrev pub windows_modern_bytes : ℕ → ℕ → ℕ → ℕ → FilesystemCounters
windows_modern_bytes g f a t = windows_bytes g f a t WindowsCounterSource.modern

abbrev pub windows_legacy_bytes : ℕ → ℕ → ℕ → ℕ → FilesystemCounters
windows_legacy_bytes g f a t = windows_bytes g f a t WindowsCounterSource.legacy

abbrev pub is_modern : WindowsCounterSource → Bool
is_modern WindowsCounterSource.modern = true
is_modern WindowsCounterSource.legacy = false

-- A wrapper that only validation builds.
pub record ValidatedWindowsCounters : Type 0 where
  pub counters : FilesystemCounters

unfoldable pub validated_into_stats : ValidatedWindowsCounters → FsStats
validated_into_stats v =
    let c = v.counters in
    from_parts c.free_space c.available_space c.total_space c.allocation_granularity

unfoldable pub validated_space : ValidatedWindowsCounters → SpaceKind → ℕ
validated_space v SpaceKind.free = v.counters.free_space
validated_space v SpaceKind.available = v.counters.available_space
validated_space v SpaceKind.total = v.counters.total_space
validated_space v SpaceKind.allocation_granularity = v.counters.allocation_granularity

unfoldable pub validate_windows_counters : FilesystemCounters → Result ValidatedWindowsCounters
unfolding validate_granularity validate_available_bounds
validate_windows_counters c = do
  validate_granularity c.allocation_granularity
  validate_available_bounds c.available_space c.free_space c.total_space
  fail_if (is_modern c.source && ltb c.total_space c.free_space)
      (invalid_stats "filesystem free space exceeds total space")
  ok (record { counters = c })

unfoldable pub into_stats : FilesystemCounters → Result FsStats
unfolding validate_windows_counters validated_into_stats
into_stats c = map_ok validated_into_stats (validate_windows_counters c)

unfoldable pub space : FilesystemCounters → SpaceKind → Result ℕ
unfolding validate_windows_counters validated_space
space c kind = map_ok (λ v. validated_space v kind) (validate_windows_counters c)
