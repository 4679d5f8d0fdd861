-- ===== src/Windows/Stats/Legacy/Agree.antt =====
-- A legacy snapshot always passes validation, and the scalar queries agree with it.
use fs2_turbo.Base.{ℕ, List, ◌≡◌, ok, arith}
use fs2_turbo.Stats.Snapshot.{SpaceKind, getter}
use fs2_turbo.Stats.Windows.{FilesystemCounters, into_stats}
use fs2_turbo.Stats.Windows.Laws.{stats_of, windows_into_stats-iff_IsSane}
use fs2_turbo.Windows.Stats.Legacy.{
  LegacySys, legacy_statvfs, legacy_space, cluster_geometry, byte_space,
}

module _ {S : Type 0} (sys : LegacySys S) where
  -- A snapshot that the legacy provider gives always passes validation, with its counters
  -- unchanged.
  pub legacy_accepted :
      (root : List ℕ) (s : S) {c : FilesystemCounters}
      → (legacy_statvfs sys root s).0 ≡ ok c
      → into_stats c ≡ ok (stats_of c)
  unfolding legacy_statvfs cluster_geometry byte_space
  legacy_accepted root s {c} h = ground (arith, windows_into_stats-iff_IsSane c (stats_of c))

  -- If the two legacy calls answer a scalar query as they answered an earlier successful snapshot
  -- of the root, the scalar of each kind is the snapshot's.
  pub legacy_space-legacy_statvfs :
      (root : List ℕ) (kind : SpaceKind) (s t : S) {c : FilesystemCounters}
      → (sys.get_disk_free_space root t).0 ≡ (sys.get_disk_free_space root s).0
      → (sys.get_disk_free_space_ex root t).0
        ≡ (sys.get_disk_free_space_ex root (sys.get_disk_free_space root s).1).0
      → (legacy_statvfs sys root s).0 ≡ ok c
      → (legacy_space sys root kind t).0 ≡ ok (getter kind (stats_of c))
  unfolding legacy_statvfs legacy_space cluster_geometry byte_space
  legacy_space-legacy_statvfs root kind s t {c} geometry bytes h = ground arith
