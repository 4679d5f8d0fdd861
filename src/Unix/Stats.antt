-- ===== src/Unix/Stats.antt =====
-- Counters from `statfs` and `statvfs`: src/unix/stats.rs. The numbers of a target whose fields
-- may be signed are integers; those that `u64::from` converts are natural.
pub mod Agree
use fs2_turbo.Base.{
  ℕ, ℤ, pos, String, os, Result, ok, err, ◌>>=◌, ok_or, to_unsigned, eqb_ℤ, ◌==◌, List,
  if◌then◌else◌,
}
use fs2_turbo.Base.Io
use fs2_turbo.Base.Io.{Io}
use fs2_turbo.Stats.Snapshot.{SpaceKind, FsStats, invalid_stats}
use fs2_turbo.Stats.Unix.{FilesystemCounters, unix_blocks, space as counters_space}
use fs2_turbo.Unix.Path.{with_c_path}

-- What a filesystem-stat call leaves behind.
pub record StatCall (T : Type 0) : Type 0 where
  pub result : ℤ
  pub errno : ℤ
  pub stat : T

-- `libc::statfs` on 64-bit Linux.
pub record Statfs : Type 0 where
  pub f_frsize : ℤ
  pub f_bsize : ℤ
  pub f_bfree : ℕ
  pub f_bavail : ℕ
  pub f_blocks : ℕ

-- `libc::statvfs` on the other targets.
pub record Statvfs : Type 0 where
  pub f_frsize : ℤ
  pub f_bfree : ℤ
  pub f_bavail : ℤ
  pub f_blocks : ℤ

-- `libc::statvfs` on Apple's targets, where every field is unsigned.
pub record AppleStatvfs : Type 0 where
  pub f_frsize : ℕ
  pub f_bfree : ℕ
  pub f_bavail : ℕ
  pub f_blocks : ℕ

unfoldable pub query_stat : {T : Type 0} → StatCall T → Result T
query_stat call = if eqb_ℤ call.result (pos 0) then ok call.stat else err (os call.errno)

-- `filesystem_value`, and `signed_filesystem_value`, which is its copy for `i64`.
unfoldable pub filesystem_value : ℤ → String → Result ℕ
filesystem_value value message = ok_or (to_unsigned value) (invalid_stats message)

unfoldable pub linux_allocation_granularity : ℕ → ℕ → ℕ
linux_allocation_granularity fragment_size block_size =
    if fragment_size == 0 then block_size else fragment_size

-- The messages are those of the GNU target.
unfoldable pub filesystem_counters_from_statfs : Statfs → Result FilesystemCounters
unfolding filesystem_value linux_allocation_granularity
filesystem_counters_from_statfs stat = do
  fragment_size ← filesystem_value stat.f_frsize "filesystem returned a negative fragment size"
  block_size ← filesystem_value stat.f_bsize "filesystem returned a negative block size"
  ok (
      unix_blocks (linux_allocation_granularity fragment_size block_size) stat.f_bfree stat.f_bavail
        stat.f_blocks)

unfoldable pub filesystem_counters_from_statvfs : Statvfs → Result FilesystemCounters
unfolding filesystem_value
filesystem_counters_from_statvfs stat = do
  fragment_size ← filesystem_value stat.f_frsize "filesystem returned an invalid fragment size"
  free ← filesystem_value stat.f_bfree "filesystem returned an invalid free-block count"
  available ← filesystem_value stat.f_bavail "filesystem returned an invalid available-block count"
  total ← filesystem_value stat.f_blocks "filesystem returned an invalid block count"
  ok (unix_blocks fragment_size free available total)

unfoldable pub filesystem_counters_from_apple : AppleStatvfs → Result FilesystemCounters
filesystem_counters_from_apple stat =
    ok (unix_blocks stat.f_frsize stat.f_bfree stat.f_bavail stat.f_blocks)

unfoldable pub space_from_counters : Result FilesystemCounters → SpaceKind → Result ℕ
space_from_counters counters kind = do c ← counters; counters_space c kind

-- The call of the target and the conversion of its structure, over the system's state.
module _ {S T : Type 0} (call : List ℕ → S → StatCall T × S)
    (convert : T → Result FilesystemCounters) where
  unfoldable pub statvfs_cstr : List ℕ → Io S FilesystemCounters
  unfolding query_stat
  statvfs_cstr path s =
      let (answer, s') = call path s in (query_stat answer >>= λ stat. convert stat, s')

  unfoldable pub statvfs : List ℕ → Io S FilesystemCounters
  statvfs path = with_c_path path statvfs_cstr

  unfoldable pub space : List ℕ → SpaceKind → Io S ℕ
  unfolding space_from_counters
  space path kind s = let (counters, s') = statvfs path s in (space_from_counters counters kind, s')

  -- `StatsQuery`: a C string that was made before.
  unfoldable pub counters : List ℕ → Io S FilesystemCounters
  counters query = statvfs_cstr query
