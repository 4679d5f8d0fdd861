-- ===== src/Process/Timeout.antt =====
-- How long a child may run: `process_timeout` and `timeout_from_value` of tools/fs2-dev/src/process.rs.
use fs2_turbo.Base.{
  ℕ, String, ◌≤◌, ◌&&◌, leb, if◌then◌else◌, Option, none, some, ◌≡◌, ErrorKind, Error, Result, ok,
  err, arith,
}
use fs2_turbo.Base.Text.{parse_u64, decimal}
use fs2_turbo.Base.Text.Laws.{parse_u64-decimal}
use fs2_turbo.Process.{from_secs}

abbrev pub default_process_timeout : ℕ
default_process_timeout = from_secs 3600

abbrev pub max_process_timeout_seconds : ℕ
max_process_timeout_seconds = 86400

-- The test of what `parse` has read.
unfoldable pub timeout_from_seconds : Option ℕ → Result ℕ
timeout_from_seconds none =
    err (Error.custom ErrorKind.invalid_data "FS2_DEV_PROCESS_TIMEOUT_SECONDS must be an integer")
timeout_from_seconds (some seconds) =
    if leb 1 seconds && leb seconds max_process_timeout_seconds
    then ok (from_secs seconds)
    else err (
        Error.custom ErrorKind.invalid_data
          "FS2_DEV_PROCESS_TIMEOUT_SECONDS is outside the supported range")

-- The value of FS2_DEV_PROCESS_TIMEOUT_SECONDS, rendered by `display_os`.
unfoldable pub timeout_from_value : Option String → Result ℕ
unfolding timeout_from_seconds
timeout_from_value none = ok default_process_timeout
timeout_from_value (some value) = timeout_from_seconds (parse_u64 value)

-- A number of seconds from 1 to 86400 that is printed in decimal is read back as the timeout of
-- that many seconds.
pub timeout_from_value-decimal :
    (n : ℕ)
    → 1 ≤ n
    → n ≤ max_process_timeout_seconds
    → timeout_from_value (some (decimal n)) ≡ ok (from_secs n)
unfolding timeout_from_value timeout_from_seconds
timeout_from_value-decimal n low high =
    rw (parse_u64-decimal n (omega (arith, high)), timeout_from_value) (ground arith)

timeout_from_seconds_bounds :
    (seconds : Option ℕ) (t : ℕ)
    → timeout_from_seconds seconds ≡ ok t
    → from_secs 1 ≤ t × t ≤ from_secs max_process_timeout_seconds
unfolding timeout_from_seconds
timeout_from_seconds_bounds none t h = absurd cc
timeout_from_seconds_bounds (some n) t h = (ground arith, ground arith)

-- A timeout that is accepted, set or not, is at least a second and at most 86400 seconds.
pub timeout_from_value_bounds :
    (value : Option String) (t : ℕ)
    → timeout_from_value value ≡ ok t
    → from_secs 1 ≤ t × t ≤ from_secs max_process_timeout_seconds
unfolding timeout_from_value
timeout_from_value_bounds none t h = (ground arith, ground arith)
timeout_from_value_bounds (some value) t h = timeout_from_seconds_bounds (parse_u64 value) t h
