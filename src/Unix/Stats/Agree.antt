-- ===== src/Unix/Stats/Agree.antt =====
-- On Unix the scalar functions, the snapshot and the prepared query tell the same numbers.
use fs2_turbo.Base.{
  ℕ, pos, pos_part, ◌≡◌, ◌↔◌, true, Result, ok, map_ok, List, arith, Result-cases, inl, inr, ◌≢◌,
}
use fs2_turbo.Base.Io.{lift, ◌>>=◌}
use fs2_turbo.Stats.Snapshot.{SpaceKind, getter}
use fs2_turbo.Stats.Unix.{FilesystemCounters, into_stats}
use fs2_turbo.Stats.Unix.Laws.{unix_space-into_stats}
use fs2_turbo.Stats.Query
use fs2_turbo.Stats.Query.{StatsSys, StdPath, new_path, snapshot}
use fs2_turbo.Base.Buffer.{null_terminated}
use fs2_turbo.Unix.Path.{with_c_path}
use fs2_turbo.Unix.Path.Sound.{c_path-null_terminated}
use fs2_turbo.Unix.Stats.{
  StatCall, Statfs, space, statvfs, counters, filesystem_counters_from_statfs,
}

-- `crate::sys` of a Unix target.
unfoldable pub unix_stats_sys :
    {S T : Type 0}
    → (List ℕ → S → StatCall T × S)
    → (T → Result FilesystemCounters)
    → StatsSys S (List ℕ) FilesystemCounters (List ℕ)
unix_stats_sys call convert = record {
  statvfs = statvfs call convert;
  space = space call convert;
  new_query = λ path. lift (null_terminated path);
  counters = counters call convert;
  into_stats = into_stats;
}

module _ {S T : Type 0} (call : List ℕ → S → StatCall T × S)
    (convert : T → Result FilesystemCounters) where
  -- On Unix, for every path, kind and state, the scalar query and the getter of the snapshot are
  -- the same result, errors included, and leave the same state.
  pub space-statvfs :
      (path : List ℕ) (kind : SpaceKind) (s : S)
      → (unix_stats_sys call convert).space path kind s ≡ (
          let (r, s') = Query.statvfs (unix_stats_sys call convert) path s in
          (map_ok (getter kind) r, s'))
  unfolding unix_stats_sys space Query.statvfs
  space-statvfs path kind s = elim (Result-cases (statvfs call convert path s).0) [
    | inl (c, e) ↦ rw e (ground (arith, unix_space-into_stats c kind))
    | inr (x, e) ↦ ground arith
  ]

  -- On Unix, preparing a query from an absolute path and taking its snapshot is the same as
  -- `statvfs` of the path, errors and state included.
  pub snapshot-statvfs :
      (std : StdPath S (List ℕ)) (path : List ℕ) (s : S)
      → std.is_absolute path ≡ true
      → (new_path std (unix_stats_sys call convert) path >>= λ query.
            snapshot (unix_stats_sys call convert) query)
          s
        ≡ Query.statvfs (unix_stats_sys call convert) path s
  unfolding unix_stats_sys new_path snapshot Query.statvfs statvfs counters with_c_path
  snapshot-statvfs std path s absolute = ground (arith, c_path-null_terminated path)

-- `statfs` of 64-bit Linux gives counters exactly when the fragment and block sizes are not
-- negative; the granularity is then the fragment size, or the block size where that is zero, and
-- the three counts are those of the structure.
pub filesystem_counters_from_statfs_iff :
    (stat : Statfs) (c : FilesystemCounters)
    → (filesystem_counters_from_statfs stat ≡ ok c) ↔ (
        (fragment : ℕ) × (block : ℕ) × (stat.f_frsize ≡ pos fragment)
        × (stat.f_bsize ≡ pos block)
        × (fragment ≡ 0 → c.allocation_granularity ≡ block)
        × (fragment ≢ 0 → c.allocation_granularity ≡ fragment)
        × (c.free_blocks ≡ stat.f_bfree)
        × (c.available_blocks ≡ stat.f_bavail)
        × (c.total_blocks ≡ stat.f_blocks))
unfolding filesystem_counters_from_statfs
filesystem_counters_from_statfs_iff stat c = (
  λ h. (
    pos_part stat.f_frsize,
    pos_part stat.f_bsize,
    ground arith,
    ground arith,
    λ z. ground arith,
    λ z. ground arith,
    ground arith,
    ground arith,
    ground arith,
  ),
  λ h. ground arith,
)
