-- ===== src/Stats/Unix/Laws.antt =====
-- What the Unix validation accepts, and what an accepted snapshot promises.
use fs2_turbo.Base.{ℕ, ◌*◌, ◌≤◌, ◌<◌, ◌≡◌, ◌↔◌, ok, map_ok, arith, u64_max}
use fs2_turbo.Stats.Snapshot.{SpaceKind, FsStats, getter}
use fs2_turbo.Stats.Unix.{FilesystemCounters, into_stats, space}

-- Counters that make sense together, and whose byte total fits a `u64`.
abbrev pub IsSane : FilesystemCounters → Type 0
IsSane c =
    (0 < c.allocation_granularity)
    × (c.free_blocks ≤ c.total_blocks)
    × (c.available_blocks ≤ c.free_blocks)
    × (c.allocation_granularity * c.total_blocks ≤ u64_max)

-- The exact byte counts of a file system, with no wrap-around.
abbrev pub exact_stats : FilesystemCounters → FsStats
exact_stats c = record {
  free_space = c.allocation_granularity * c.free_blocks;
  available_space = c.allocation_granularity * c.available_blocks;
  total_space = c.allocation_granularity * c.total_blocks;
  allocation_granularity = c.allocation_granularity;
}

mul_bound : (g a b m : ℕ) → a ≤ b → g * b ≤ m → g * a ≤ m
mul_bound g a b m h k = grind arith

exact_products :
    (c : FilesystemCounters)
    → IsSane c
    → (c.allocation_granularity * c.free_blocks ≤ u64_max)
      × (c.allocation_granularity * c.available_blocks ≤ u64_max)
exact_products c h =
    let free = mul_bound c.allocation_granularity c.free_blocks c.total_blocks u64_max h.1 h.3 in
    (free, mul_bound c.allocation_granularity c.available_blocks c.free_blocks u64_max h.2 free)

-- Unix counters become a snapshot exactly when the granularity is not zero, available ≤ free ≤
-- total in blocks and the total in bytes fits a `u64`, and the snapshot then holds the exact byte
-- products, so no product has wrapped.
pub unix_into_stats-iff_IsSane :
    (c : FilesystemCounters) (s : FsStats)
    → (into_stats c ≡ ok s) ↔ (IsSane c × (s ≡ exact_stats c))
unfolding into_stats
unix_into_stats-iff_IsSane c s =
    (λ h. ground (arith, exact_products c), λ h. ground (arith, exact_products c h.0))

pub unix_space-into_stats :
    (c : FilesystemCounters) (kind : SpaceKind) → space c kind ≡ map_ok (getter kind) (into_stats c)
unfolding into_stats space
unix_space-into_stats c kind = ground arith
