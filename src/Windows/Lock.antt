-- ===== src/Windows/Lock.antt =====
-- Whole-file locks: src/windows/lock.rs.
pub mod Holds
pub mod Events
use fs2_turbo.Base.{ℕ, ℤ, pos, eqb_ℤ, not, Bool, Error, os, Result, ok, err, if◌then◌else◌}
use fs2_turbo.Base.Io.{Io, lift, ◌>>=◌}
use fs2_turbo.Windows.Path.{Call, win32_bool_result}
use fs2_turbo.Windows.Overlapped
use fs2_turbo.Windows.Overlapped.{EventSys, PrivateOverlapped, with_overlapped}

pub record Flags : Type 0 where
  pub lockfile_exclusive_lock : ℕ
  pub lockfile_fail_immediately : ℕ
  pub error_io_pending : ℤ
  pub error_lock_violation : ℤ

-- The calls on a file, each over the whole range that the crate locks.
pub record LockSys (S F : Type 0) : Type 0 where
  pub lock_file : F → S → Call × S
  pub lock_file_ex : F → ℕ → PrivateOverlapped → S → Call × S
  pub get_overlapped_result : F → PrivateOverlapped → S → Call × S
  pub unlock_file : F → S → Call × S

unfoldable pub lock_error : Flags → Error
lock_error c = os c.error_lock_violation

module _ {S F : Type 0} (c : Flags) (events : EventSys S) (sys : LockSys S F) where
  -- The body of `lock_file_with_overlapped`, which owns the event.
  unfoldable pub lock_with_event : F → ℕ → PrivateOverlapped → Io S (Unit {0})
  unfolding win32_bool_result
  lock_with_event file flags overlapped s =
      let (call, s') = sys.lock_file_ex file flags overlapped s in
      let pending = sys.get_overlapped_result file overlapped s' in
      if not (eqb_ℤ call.result (pos 0))
      then (ok tt, s')
      else if not (eqb_ℤ call.last_error c.error_io_pending)
      then (err (os call.last_error), s')
      else (win32_bool_result pending.0, pending.1)

  unfoldable pub lock_file_with_overlapped : F → ℕ → Result PrivateOverlapped → Io S (Unit {0})
  unfolding with_overlapped
  lock_file_with_overlapped file flags (ok overlapped) =
      with_overlapped events (lock_with_event file flags) overlapped
  lock_file_with_overlapped file flags (err e) = lift (err e)

  unfoldable pub lock_file : F → ℕ → Io S (Unit {0})
  unfolding lock_file_with_overlapped
  lock_file file flags s =
      let (overlapped, s') = Overlapped.new events s in
      lock_file_with_overlapped file flags overlapped s'

  unfoldable pub try_lock_exclusive : F → Io S (Unit {0})
  unfolding win32_bool_result
  try_lock_exclusive file s = let (call, s') = sys.lock_file file s in (win32_bool_result call, s')

  unfoldable pub lock_shared : F → Bool → Io S (Unit {0})
  lock_shared file nonblocking =
      lock_file file (if nonblocking then c.lockfile_fail_immediately else 0)

  -- The result of the first attempt decides; its error is dropped.
  unfoldable pub fall_through : F → Result (Unit {0}) → Io S (Unit {0})
  fall_through file (ok _) = lift (ok tt)
  fall_through file (err _) = lock_file file c.lockfile_exclusive_lock

  unfoldable pub lock_exclusive : F → Bool → Io S (Unit {0})
  unfolding try_lock_exclusive fall_through
  lock_exclusive file nonblocking s =
      let (first, s') = try_lock_exclusive file s in
      if nonblocking then (first, s') else fall_through file first s'

  unfoldable pub unlock : F → Io S (Unit {0})
  unfolding win32_bool_result
  unlock file s = let (call, s') = sys.unlock_file file s in (win32_bool_result call, s')
