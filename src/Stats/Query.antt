-- ===== src/Stats/Query.antt =====
-- The public functions and the prepared query: src/stats.rs and src/stats/query.rs, over what a
-- platform provides. `C` is the platform's `FilesystemCounters`, `Q` its `StatsQuery`.
use fs2_turbo.Base.{ℕ, Bool, Result, ok, if◌then◌else◌}
use fs2_turbo.Base.Io.{Io, lift, ◌>>=◌}
use fs2_turbo.Stats.Snapshot.{SpaceKind, FsStats}

pub record StatsSys (S P C Q : Type 0) : Type 0 where
  pub statvfs : P → Io S C
  pub space : P → SpaceKind → Io S ℕ
  pub new_query : P → Io S Q
  pub counters : Q → Io S C
  pub into_stats : C → Result FsStats

-- `Path::is_absolute` and `std::path::absolute`, which reads the working directory.
pub record StdPath (S P : Type 0) : Type 0 where
  pub is_absolute : P → Bool
  pub absolute : P → Io S P

module _ {S P C Q : Type 0} (sys : StatsSys S P C Q) where
  unfoldable pub statvfs : P → Io S FsStats
  statvfs path = do counters ← sys.statvfs path; lift (sys.into_stats counters)

  unfoldable pub free_space : P → Io S ℕ
  free_space path = sys.space path SpaceKind.free

  unfoldable pub available_space : P → Io S ℕ
  available_space path = sys.space path SpaceKind.available

  unfoldable pub total_space : P → Io S ℕ
  total_space path = sys.space path SpaceKind.total

  unfoldable pub allocation_granularity : P → Io S ℕ
  allocation_granularity path = sys.space path SpaceKind.allocation_granularity

  -- `FsStatsQuery::snapshot`.
  unfoldable pub snapshot : Q → Io S FsStats
  snapshot query = do counters ← sys.counters query; lift (sys.into_stats counters)

module _ {S P : Type 0} (std : StdPath S P) where
  unfoldable pub absolute_path : P → Io S P
  absolute_path path = if std.is_absolute path then lift (ok path) else std.absolute path

-- `FsStatsQuery::new`.
unfoldable pub new_path : {S P C Q : Type 0} → StdPath S P → StatsSys S P C Q → P → Io S Q
unfolding absolute_path
new_path std sys path = do path ← absolute_path std path; sys.new_query path
