-- ===== src/Windows/Stats/Legacy.antt =====
-- The legacy provider, `GetDiskFreeSpaceW` and `GetDiskFreeSpaceExW`: src/windows/stats/legacy.rs.
pub mod Agree
use fs2_turbo.Base.{
  ℕ, ◌==◌, ltb, ◌||◌, ErrorKind, Error, custom, List, Result, ok, err, ◌>>=◌, ◌>>◌, fail_if, map_ok,
  wrapping_mul,
}
use fs2_turbo.Base.Io.{Io}
use fs2_turbo.Stats.Snapshot.{SpaceKind, invalid_stats}
use fs2_turbo.Stats.Windows.{FilesystemCounters, windows_legacy_bytes}
use fs2_turbo.Windows.Path.{Call, win32_bool_result}

-- `GetDiskFreeSpaceW`, as far as its outputs are read.
pub record GeometryCall : Type 0 where
  pub call : Call
  pub sectors_per_cluster : ℕ
  pub bytes_per_sector : ℕ

-- `GetDiskFreeSpaceExW`.
pub record BytesCall : Type 0 where
  pub call : Call
  pub caller_available : ℕ
  pub caller_total : ℕ
  pub actual_free : ℕ

pub record LegacySys (S : Type 0) : Type 0 where
  pub get_disk_free_space : List ℕ → S → GeometryCall × S
  pub get_disk_free_space_ex : List ℕ → S → BytesCall × S

pub record ByteSpace : Type 0 where
  pub actual_free : ℕ
  pub caller_available : ℕ
  pub caller_total : ℕ

unfoldable pub cluster_geometry_result : GeometryCall → Result ℕ
unfolding win32_bool_result
cluster_geometry_result answer = do
  win32_bool_result answer.call
  let granularity = wrapping_mul answer.sectors_per_cluster answer.bytes_per_sector
  fail_if (granularity == 0) (invalid_stats "filesystem allocation granularity is zero")
  ok granularity

abbrev pub byte_space_domain_error : Error
byte_space_domain_error =
    custom ErrorKind.invalid_data "filesystem available space exceeds physical free space"

unfoldable pub byte_space_result : BytesCall → Result ByteSpace
unfolding win32_bool_result
byte_space_result answer = do
  win32_bool_result answer.call
  fail_if
      (ltb answer.caller_total answer.caller_available
        || ltb answer.actual_free answer.caller_available)
      byte_space_domain_error
  ok (record {
    actual_free = answer.actual_free;
    caller_available = answer.caller_available;
    caller_total = answer.caller_total;
  })

module _ {S : Type 0} (sys : LegacySys S) where
  unfoldable pub cluster_geometry : List ℕ → Io S ℕ
  unfolding cluster_geometry_result
  cluster_geometry root_path s =
      let (answer, s') = sys.get_disk_free_space root_path s in (cluster_geometry_result answer, s')

  unfoldable pub byte_space : List ℕ → Io S ByteSpace
  unfolding byte_space_result
  byte_space root_path s =
      let (answer, s') = sys.get_disk_free_space_ex root_path s in (byte_space_result answer, s')

  unfoldable pub legacy_statvfs_after_geometry : List ℕ → Result ℕ → Io S FilesystemCounters
  legacy_statvfs_after_geometry root_path (ok geometry) s =
      let (bytes, s') = byte_space root_path s in
      (
        map_ok (λ b. windows_legacy_bytes geometry b.actual_free b.caller_available b.caller_total)
            bytes,
        s',
      )
  legacy_statvfs_after_geometry root_path (err e) s = (err e, s)

  unfoldable pub legacy_statvfs : List ℕ → Io S FilesystemCounters
  unfolding legacy_statvfs_after_geometry
  legacy_statvfs root_path s =
      let (geometry, s') = cluster_geometry root_path s in
      legacy_statvfs_after_geometry root_path geometry s'

  unfoldable pub legacy_bytes : (ByteSpace → ℕ) → List ℕ → Io S ℕ
  legacy_bytes field root_path s =
      let (bytes, s') = byte_space root_path s in (map_ok field bytes, s')

  unfoldable pub legacy_space : List ℕ → SpaceKind → Io S ℕ
  unfolding legacy_bytes
  legacy_space root_path SpaceKind.free = legacy_bytes (λ b. b.actual_free) root_path
  legacy_space root_path SpaceKind.available = legacy_bytes (λ b. b.caller_available) root_path
  legacy_space root_path SpaceKind.total = legacy_bytes (λ b. b.caller_total) root_path
  legacy_space root_path SpaceKind.allocation_granularity = cluster_geometry root_path
