-- ===== src/Stats/Snapshot.antt =====
-- The snapshot that the crate returns and the counter that a caller asks for: src/stats/snapshot.rs
-- and `SpaceKind`, `invalid_stats` of src/stats.rs.
use fs2_turbo.Base.{ℕ, String, Error, custom, ErrorKind}

pub data SpaceKind : Type 0 where
  free available total allocation_granularity : SpaceKind

abbrev pub invalid_stats : String → Error
invalid_stats message = custom ErrorKind.invalid_data message

pub record FsStats : Type 0 where
  pub free_space : ℕ
  pub available_space : ℕ
  pub total_space : ℕ
  pub allocation_granularity : ℕ

abbrev pub from_parts : ℕ → ℕ → ℕ → ℕ → FsStats
from_parts f a t g = record {
  free_space = f;
  available_space = a;
  total_space = t;
  allocation_granularity = g;
}

-- The getter of the snapshot that answers for a kind of space.
abbrev pub getter : SpaceKind → FsStats → ℕ
getter SpaceKind.free s = s.free_space
getter SpaceKind.available s = s.available_space
getter SpaceKind.total s = s.total_space
getter SpaceKind.allocation_granularity s = s.allocation_granularity
