-- ===== src/Stats/Windows/Laws.antt =====
-- What the Windows validation accepts. The legacy provider may report a total that a quota limits,
-- so only the modern one is held to free ≤ total.
use fs2_turbo.Base.{◌≤◌, ◌<◌, ◌≡◌, ◌↔◌, ok, err, map_ok, Error, raw_os_error, none, arith}
use fs2_turbo.Stats.Snapshot.{SpaceKind, FsStats, getter}
use fs2_turbo.Stats.Windows.{FilesystemCounters, WindowsCounterSource, into_stats, space}

-- Counters that make sense together, by the provider that they come from.
abbrev pub IsSane : FilesystemCounters → Type 0
IsSane c =
    (0 < c.allocation_granularity)
    × (c.available_space ≤ c.free_space)
    × (c.available_space ≤ c.total_space)
    × (c.source ≡ WindowsCounterSource.modern → c.free_space ≤ c.total_space)

abbrev pub stats_of : FilesystemCounters → FsStats
stats_of c = record {
  free_space = c.free_space;
  available_space = c.available_space;
  total_space = c.total_space;
  allocation_granularity = c.allocation_granularity;
}

pub windows_into_stats-iff_IsSane :
    (c : FilesystemCounters) (s : FsStats) → (into_stats c ≡ ok s) ↔ (IsSane c × (s ≡ stats_of c))
unfolding into_stats
windows_into_stats-iff_IsSane c s = (λ h. ground arith, λ h. ground arith)

pub windows_space-into_stats :
    (c : FilesystemCounters) (kind : SpaceKind) → space c kind ≡ map_ok (getter kind) (into_stats c)
unfolding into_stats space
windows_space-into_stats c kind = ground arith

-- What validation refuses carries no code of the operating system.
pub windows_space-raw_os_error :
    (c : FilesystemCounters) (kind : SpaceKind) {e : Error}
    → space c kind ≡ err e
    → raw_os_error e ≡ none
unfolding space
windows_space-raw_os_error c kind h = ground arith
