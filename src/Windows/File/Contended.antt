-- ===== src/Windows/File/Contended.antt =====
-- A nonblocking lock of a file that another holds fails with the error that the crate documents.
use fs2_turbo.Base.{ℕ, pos, ◌≡◌, ◌≢◌, ok, err, eqb_ℤ_iff, arith}
use fs2_turbo.FileExt.{file_ext, lock_contended_error}
use fs2_turbo.Windows.Path.{Call}
use fs2_turbo.Windows.Overlapped
use fs2_turbo.Windows.Overlapped.{PrivateOverlapped, with_overlapped}
use fs2_turbo.Windows.Lock
use fs2_turbo.Windows.Lock.{lock_file, lock_with_event, lock_file_with_overlapped}
use fs2_turbo.Windows.File.{FileApi, windows_file_sys}

module _ {S : Type 0} (api : FileApi S) where
  -- A call that another's lock refused.
  abbrev pub IsViolation : Call → Type 0
  IsViolation call = (call.result ≡ pos 0) × (call.last_error ≡ api.flags.error_lock_violation)

  lock_refused :
      (file flags : ℕ) (s : S) {o : PrivateOverlapped}
      → api.flags.error_lock_violation ≢ api.flags.error_io_pending
      → (Overlapped.new api.events s).0 ≡ ok o
      → IsViolation (api.locks.lock_file_ex file flags o (Overlapped.new api.events s).1).0
      → (lock_file api.flags api.events api.locks file flags s).0 ≡ err (Lock.lock_error api.flags)
  unfolding lock_file lock_with_event Lock.lock_error
  lock_refused file flags s {o} distinct created refused = ground (
    arith,
    eqb_ℤ_iff (api.locks.lock_file_ex file flags o (Overlapped.new api.events s).1).0.last_error
        api.flags.error_io_pending,
  )

  -- On Windows, where a violation of a lock and a pending call have different codes and an event
  -- is created, both nonblocking locks of `File`, when the system refuses them for another's lock,
  -- fail with `lock_contended_error`.
  pub try_lock_contended :
      (file : ℕ) (s : S) {o : PrivateOverlapped}
      → api.flags.error_lock_violation ≢ api.flags.error_io_pending
      → IsViolation (api.locks.lock_file file s).0
      → (Overlapped.new api.events s).0 ≡ ok o
      → IsViolation
          (api.locks.lock_file_ex file api.flags.lockfile_fail_immediately o
            (Overlapped.new api.events s).1).0
      → let file_methods = file_ext (windows_file_sys api) in
        ((file_methods.required.try_lock_exclusive file s).0
          ≡ err (lock_contended_error (windows_file_sys api)))
        × ((file_methods.required.try_lock_shared file s).0
            ≡ err (lock_contended_error (windows_file_sys api)))
  unfolding file_ext windows_file_sys lock_contended_error Lock.lock_shared Lock.lock_exclusive
      Lock.lock_error
  try_lock_contended file s {o} distinct exclusive created shared = (
    ground arith,
    lock_refused file api.flags.lockfile_fail_immediately s {o = o} distinct created shared,
  )
