-- ===== src/Windows/Control.antt =====
-- Device control with a private event: the second half of src/windows/allocation.rs.
pub mod Events
pub mod Keeps
use fs2_turbo.Base.{
  ℕ, ℤ, pos, leb, leb_ℤ, eqb_ℤ, ◌==◌, ◌&&◌, ◌||◌, Bool, true, false, ErrorKind, Error, os, custom,
  wrapped, raw_os_error, Option, none, some, Result, ok, err, to_i64, if◌then◌else◌,
}
use fs2_turbo.Base.Io.{Io}
use fs2_turbo.Windows.Path.{Call}
use fs2_turbo.Windows.Overlapped
use fs2_turbo.Windows.Overlapped.{EventSys, PrivateOverlapped, with_overlapped}

-- `FILE_ALLOCATED_RANGE_BUFFER`.
pub record Range : Type 0 where
  pub file_offset : ℤ
  pub len : ℤ

-- The control code of a request with its input.
pub data Request : Type 0 where
  set_sparse : Bool → Request
  query_allocated_ranges : Range → Request

-- What a control call leaves: its answer, the count of bytes returned, and the output buffer.
pub record Control : Type 0 where
  pub call : Call
  pub returned : ℕ
  pub range : Range

pub record ControlConstants : Type 0 where
  pub error_io_pending : ℤ
  pub error_more_data : ℤ
  pub error_invalid_function : ℤ
  pub error_invalid_parameter : ℤ
  pub error_not_supported : ℤ
  pub size_of_range : ℕ

pub record ControlSys (S F : Type 0) : Type 0 where
  pub device_io_control : F → Request → PrivateOverlapped → S → Control × S
  pub get_overlapped_result : F → PrivateOverlapped → ℕ → S → Control × S

-- `DeviceControlResult`; the output buffer goes with it.
pub data DeviceControlResult : Type 0 where
  done : ℕ → DeviceControlResult
  failed : Error → ℕ → DeviceControlResult

unfoldable pub device_control_result : Control → DeviceControlResult
device_control_result control =
    if eqb_ℤ control.call.result (pos 0)
    then DeviceControlResult.failed (os control.call.last_error) control.returned
    else DeviceControlResult.done control.returned

-- `error.raw_os_error() == Some(code)`.
abbrev pub has_code : ℤ → Error → Bool
has_code code error = elim (raw_os_error error) [ some c ↦ eqb_ℤ c code | none ↦ false ]

abbrev pub zero_range : Range
zero_range = record { file_offset = pos 0; len = pos 0 }

module _ {S F : Type 0} (c : ControlConstants) (events : EventSys S) (sys : ControlSys S F) where
  unfoldable pub wait_for_device_control :
      F → PrivateOverlapped → ℕ → S → (DeviceControlResult × Range) × S
  unfolding device_control_result
  wait_for_device_control file overlapped returned s =
      let (control, s') = sys.get_overlapped_result file overlapped returned s in
      ((device_control_result control, control.range), s')

  unfoldable pub complete_device_control :
      F → PrivateOverlapped → DeviceControlResult × Range → S → (DeviceControlResult × Range) × S
  unfolding wait_for_device_control
  complete_device_control file overlapped (DeviceControlResult.failed error returned, range) s =
      if has_code c.error_io_pending error
      then wait_for_device_control file overlapped returned s
      else ((DeviceControlResult.failed error returned, range), s)
  complete_device_control file overlapped (DeviceControlResult.done returned, range) s =
      ((DeviceControlResult.done returned, range), s)

  unfoldable pub submit_device_control :
      F → Request → PrivateOverlapped → S → (DeviceControlResult × Range) × S
  unfolding device_control_result complete_device_control
  submit_device_control file request overlapped s =
      let (control, s') = sys.device_io_control file request overlapped s in
      complete_device_control file overlapped (device_control_result control, control.range) s'

  unfoldable pub with_device_control_event :
      F → Request → Result PrivateOverlapped → S → (DeviceControlResult × Range) × S
  unfolding with_overlapped
  with_device_control_event file request (ok overlapped) s =
      with_overlapped events (submit_device_control file request) overlapped s
  with_device_control_event file request (err error) s =
      ((DeviceControlResult.failed error 0, zero_range), s)

  unfoldable pub overlapped_device_io_control : F → Request → S → (DeviceControlResult × Range) × S
  unfolding with_device_control_event
  overlapped_device_io_control file request s =
      let (event, s') = Overlapped.new events s in with_device_control_event file request event s'

  unfoldable pub unit_result : DeviceControlResult → Result (Unit {0})
  unit_result (DeviceControlResult.done returned) = ok tt
  unit_result (DeviceControlResult.failed error returned) = err error

  unfoldable pub set_sparse_file : F → Bool → Io S (Unit {0})
  unfolding unit_result
  set_sparse_file file sparse s =
      let (answer, s') = overlapped_device_io_control file (Request.set_sparse sparse) s in
      (unit_result answer.0, s')

  unfoldable pub allocated_range_covers_prefix : Range → ℤ → Bool
  allocated_range_covers_prefix range len = eqb_ℤ range.file_offset (pos 0) && leb_ℤ len range.len

  unfoldable pub allocated_range_result : DeviceControlResult → Range → ℤ → Result Bool
  unfolding allocated_range_covers_prefix
  allocated_range_result (DeviceControlResult.done returned) range len =
      ok (leb c.size_of_range returned && allocated_range_covers_prefix range len)
  allocated_range_result (DeviceControlResult.failed error returned) range len =
      if has_code c.error_more_data error
      then ok (leb c.size_of_range returned && allocated_range_covers_prefix range len)
      else err (
          wrapped ErrorKind.unsupported "Windows allocated-range verification is unavailable: "
            error)

  unfoldable pub query_range : F → Option ℤ → Io S Bool
  unfolding allocated_range_result
  query_range file (some len) s =
      let (answer, s') =
        overlapped_device_io_control file
          (Request.query_allocated_ranges (record { file_offset = pos 0; len = len })) s in
      (allocated_range_result answer.0 answer.1 len, s')
  query_range file none s =
      (err (custom ErrorKind.invalid_input "allocation length is too large"), s)

  unfoldable pub requested_range_is_allocated : F → ℕ → Io S Bool
  unfolding query_range
  requested_range_is_allocated file len s =
      if len == 0 then (ok true, s) else query_range file (to_i64 len) s

  unfoldable pub sparse_clear_result : Result (Unit {0}) → Result (Unit {0})
  sparse_clear_result (ok _) = ok tt
  sparse_clear_result (err error) =
      if has_code c.error_invalid_function error
        || (has_code c.error_invalid_parameter error || has_code c.error_not_supported error)
      then err
          (wrapped ErrorKind.unsupported "Windows sparse-range allocation is unavailable: " error)
      else err error

  unfoldable pub clear_sparse_file : F → Io S (Unit {0})
  unfolding sparse_clear_result
  clear_sparse_file file s =
      let (cleared, s') = set_sparse_file file false s in (sparse_clear_result cleared, s')
