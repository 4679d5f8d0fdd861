-- ===== src/Windows/Stats/Modern.antt =====
-- The modern provider, `GetDiskSpaceInformationW`: src/windows/stats/modern.rs.
pub mod Hresult
pub mod Exact
use fs2_turbo.Base.{
  ℕ, ℤ, pos, ◌/◌, ◌==◌, ltb, eqb_ℤ, ◌||◌, Bool, true, false, ErrorKind, Error, os, custom, Option,
  none, some, List, Result, ok, err, ◌>>=◌, ◌>>◌, fail_if, ok_or, map_ok, checked_mul, wrapping_mul,
  as_u32, as_i32, bit_and, bit_or, bit_clear, if◌then◌else◌,
}
use fs2_turbo.Base.Io.{Io, lift}
use fs2_turbo.Stats.Windows.{FilesystemCounters, windows_modern_bytes}
use fs2_turbo.Windows.Stats.Provider.{FallbackReason, ProviderOutcome}

abbrev pub facility_nt_bit : ℕ
facility_nt_bit = 0x1000_0000

abbrev pub facility_win32 : ℕ
facility_win32 = 7

-- The constants of the Windows bindings that this file compares with.
pub record HresultConstants : Type 0 where
  pub s_ok : ℤ
  pub e_notimpl : ℤ
  pub error_call_not_implemented : ℕ
  pub error_invalid_function : ℕ
  pub error_not_supported : ℕ

-- `DISK_SPACE_INFORMATION`, as far as it is read.
pub record DiskSpaceInformation : Type 0 where
  pub actual_total : ℕ
  pub actual_available : ℕ
  pub caller_total : ℕ
  pub caller_available : ℕ
  pub sectors_per_allocation_unit : ℕ
  pub bytes_per_sector : ℕ

-- `GetDiskSpaceInformationW`: an HRESULT and the structure.
abbrev pub Provider : Type 0 → Type 0
Provider S = List ℕ → S → (ℤ × DiskSpaceInformation) × S

-- `resolve_module_symbol`; the null module is 0.
unfoldable pub resolve_module_symbol : {T : Type 0} → ℕ → (ℕ → Option T) → Option T
resolve_module_symbol module_handle symbol =
    if module_handle == 0 then none else symbol module_handle

unfoldable pub hresult_from_win32 : ℕ → ℤ
hresult_from_win32 error = as_i32 (bit_or (bit_and error 0xffff) 0x8007_0000)

-- `RtlNtStatusToDosError` is the first argument.
unfoldable pub io_error_from_hresult : (ℤ → ℕ) → ℤ → Error
io_error_from_hresult nt_status_to_dos_error result =
    let encoded : ℕ = as_u32 result in
    let facility : ℕ = bit_and (encoded / 0x1_0000) 0x1fff in
    if bit_and encoded facility_nt_bit == 0
    then if facility == facility_win32 then os (as_i32 (bit_and encoded 0xffff)) else os result
    else os (as_i32 (nt_status_to_dos_error (as_i32 (bit_clear encoded facility_nt_bit))))

unfoldable pub modern_statvfs_unavailable : HresultConstants → ℤ → Bool
unfolding hresult_from_win32
modern_statvfs_unavailable c result =
    eqb_ℤ result c.e_notimpl
    || eqb_ℤ result (hresult_from_win32 c.error_call_not_implemented)
    || eqb_ℤ result (hresult_from_win32 c.error_invalid_function)
    || eqb_ℤ result (hresult_from_win32 c.error_not_supported)

abbrev pub checked_disk_space : ℕ → ℕ → Option ℕ
checked_disk_space allocation_granularity units = checked_mul allocation_granularity units

abbrev pub stats_overflow_error : Error
stats_overflow_error = custom ErrorKind.invalid_data "filesystem space overflowed"

unfoldable pub counters_from_disk_space_information :
    DiskSpaceInformation → Result FilesystemCounters
counters_from_disk_space_information info = do
  fail_if (ltb info.caller_total info.caller_available) (
      custom ErrorKind.invalid_data
        "filesystem caller-available space exceeds caller-visible total")
  fail_if (ltb info.actual_total info.actual_available)
      (custom ErrorKind.invalid_data "filesystem free space exceeds physical total")
  let granularity = wrapping_mul info.sectors_per_allocation_unit info.bytes_per_sector
  free ← ok_or (checked_disk_space granularity info.actual_available) stats_overflow_error
  available ← ok_or (checked_disk_space granularity info.caller_available) stats_overflow_error
  total ← ok_or (checked_disk_space granularity info.actual_total) stats_overflow_error
  ok (windows_modern_bytes granularity free available total)

-- What the answer of the provider is taken for.
unfoldable pub modern_answer :
    HresultConstants
    → (ℤ → ℕ)
    → ℤ
    → DiskSpaceInformation
    → Result (ProviderOutcome FilesystemCounters)
modern_answer c nt_status_to_dos_error result info =
    if eqb_ℤ result c.s_ok
    then map_ok ProviderOutcome.value (counters_from_disk_space_information info)
    else if modern_statvfs_unavailable c result
    then ok (ProviderOutcome.unavailable FallbackReason.provider_unavailable)
    else err (io_error_from_hresult nt_status_to_dos_error result)

unfoldable pub modern_statvfs_with :
    {S : Type 0}
    → HresultConstants
    → (ℤ → ℕ)
    → List ℕ
    → Option (Provider S)
    → Io S (ProviderOutcome FilesystemCounters)
unfolding modern_answer
modern_statvfs_with c nt root_path none s =
    (ok (ProviderOutcome.unavailable FallbackReason.provider_missing), s)
modern_statvfs_with c nt root_path (some get_disk_space_information) s =
    let (answer, s') = get_disk_space_information root_path s in
    (modern_answer c nt answer.0 answer.1, s')
