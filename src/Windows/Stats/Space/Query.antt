-- ===== src/Windows/Stats/Space/Query.antt =====
-- The prepared query: `StatsQuery` and `statvfs` of src/windows/stats/mod.rs.
use fs2_turbo.Base.{Option, some, none, List, ℕ, ok}
use fs2_turbo.Base.Io.{Io, lift, ◌>>=◌}
use fs2_turbo.Stats.Windows.{FilesystemCounters, into_stats}
use fs2_turbo.Stats.Query.{StatsSys}
use fs2_turbo.Windows.Path.{with_wide_path, copy_exact_drive_root, volume_path}
use fs2_turbo.Windows.Stats.Space.{SpaceSys, zero_root, statvfs_root, space}

-- `StatsQuery`.
pub record StatsQuery : Type 0 where
  pub root_path : List ℕ

module _ {S P H : Type 0} (sys : SpaceSys S P H) where
  unfoldable pub exact_or_volume : List ℕ → Option (List ℕ) → Io S StatsQuery
  exact_or_volume path (some root_path) = lift (ok (record { root_path = root_path }))
  exact_or_volume path none = do
    root_path ← volume_path sys.get_volume_path_name path zero_root
    lift (ok (record { root_path = root_path }))

  unfoldable pub stats_query_from_wide_path : List ℕ → Io S StatsQuery
  stats_query_from_wide_path path = exact_or_volume path (copy_exact_drive_root path zero_root)

  unfoldable pub new : P → Io S StatsQuery
  new path = with_wide_path (sys.encode_wide path) stats_query_from_wide_path

  unfoldable pub counters : StatsQuery → Io S FilesystemCounters
  counters query = statvfs_root sys query.root_path

  unfoldable pub statvfs : P → Io S FilesystemCounters
  statvfs path = do query ← new path; counters query

  -- `crate::sys` of Windows, for the public functions.
  unfoldable pub windows_stats_sys : StatsSys S P FilesystemCounters StatsQuery
  windows_stats_sys = record {
    statvfs = statvfs;
    space = space sys;
    new_query = new;
    counters = counters;
    into_stats = into_stats;
  }
