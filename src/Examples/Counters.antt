-- ===== src/Examples/Counters.antt =====
-- A Unix file system of 100 blocks, and the statistics of it.
use fs2_turbo.Base.{
  ℕ, suc, pos, ◌≡◌, refl, true, List, [], ◌∷◌, ok, err, custom, ErrorKind, map_ok, arith,
}
use fs2_turbo.Stats.Snapshot.{SpaceKind, getter}
use fs2_turbo.Stats.Unix.{FilesystemCounters, unix_blocks, into_stats}
use fs2_turbo.Stats.Unix.Laws.{exact_stats, unix_into_stats-iff_IsSane}
use fs2_turbo.Stats.Query
use fs2_turbo.Stats.Query.{StdPath, new_path, snapshot}
use fs2_turbo.Unix.Stats.{StatCall, Statfs, filesystem_counters_from_statfs}
use fs2_turbo.Unix.Stats.Agree.{unix_stats_sys, space-statvfs}

abbrev counters : FilesystemCounters
counters = unix_blocks 4096 50 40 100

unix_into_stats-iff_IsSane_example : into_stats counters ≡ ok (exact_stats counters)
unix_into_stats-iff_IsSane_example =
    (unix_into_stats-iff_IsSane counters (exact_stats counters)).1
      ((omega arith, omega arith, omega arith, omega arith), refl)

-- More free blocks than blocks are refused before the products are formed.
too_much_free :
    into_stats (unix_blocks 4096 101 40 100)
    ≡ err (custom ErrorKind.invalid_data "filesystem free space exceeds total space")
unfolding into_stats
too_much_free = refl

abbrev statfs : Statfs
statfs = record {
  f_frsize = pos 0;
  f_bsize = pos 4096;
  f_bfree = 50;
  f_bavail = 40;
  f_blocks = 100;
}

-- The state counts the calls.
abbrev call : List ℕ → ℕ → StatCall Statfs × ℕ
call path n = (record { result = pos 0; errno = pos 0; stat = statfs }, suc n)

abbrev root : List ℕ
root = b'/' ∷ []

space-statvfs_example :
    (unix_stats_sys call filesystem_counters_from_statfs).space root SpaceKind.free 0 ≡ (
      let (r, s') = Query.statvfs (unix_stats_sys call filesystem_counters_from_statfs) root 0 in
      (map_ok (getter SpaceKind.free) r, s'))
space-statvfs_example = space-statvfs call filesystem_counters_from_statfs root SpaceKind.free 0

abbrev std : StdPath ℕ (List ℕ)
std = record { is_absolute = λ path. true; absolute = λ path s. (ok path, s) }
