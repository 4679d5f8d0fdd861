-- ===== src/Windows/Lock/Holds.antt =====
-- Whichever route a lock takes, success means that the file is locked in the mode asked for.
use fs2_turbo.Base.{
  ℕ, pos, Bool, Option, some, ◌≡◌, ◌≢◌, ok, eqb_ℤ_iff, if◌then◌else◌, Result-cases, inl, inr, arith,
}
use fs2_turbo.Windows.Overlapped
use fs2_turbo.Windows.Overlapped.{EventSys, PrivateOverlapped, with_overlapped}
use fs2_turbo.Windows.Lock.{Flags, LockSys, lock_with_event, lock_file, lock_shared, lock_exclusive}

pub data Mode : Type 0 where
  shared exclusive : Mode

-- The flags that the crate passes for a mode, blocking or not.
abbrev pub flags_of : Flags → Mode → Bool → ℕ
flags_of c Mode.exclusive nonblocking = c.lockfile_exclusive_lock
flags_of c Mode.shared nonblocking = if nonblocking then c.lockfile_fail_immediately else 0

-- The documented meaning of success, at once or after waiting for a pending call.
pub record LockLaws {S F : Type 0} (c : Flags) (events : EventSys S) (sys : LockSys S F)
    : Type 0 where
  pub mode_of : F → S → Option Mode
  pub lock_file_holds :
      (f : F) (s : S)
      → (sys.lock_file f s).0.result ≢ pos 0
      → mode_of f (sys.lock_file f s).1 ≡ some Mode.exclusive
  pub lock_file_ex_holds :
      (f : F) (m : Mode) (nonblocking : Bool) (o : PrivateOverlapped) (s : S)
      → (sys.lock_file_ex f (flags_of c m nonblocking) o s).0.result ≢ pos 0
      → mode_of f (sys.lock_file_ex f (flags_of c m nonblocking) o s).1 ≡ some m
  pub wait_holds :
      (f : F) (m : Mode) (nonblocking : Bool) (o : PrivateOverlapped) (s : S)
      → let (call, s') = sys.lock_file_ex f (flags_of c m nonblocking) o s in
        let (waited, s'') = sys.get_overlapped_result f o s' in
        call.last_error ≡ c.error_io_pending → waited.result ≢ pos 0 → mode_of f s'' ≡ some m
  pub close_keeps : (f : F) (h : ℕ) (s : S) → mode_of f (events.close_handle h s) ≡ mode_of f s

module _ {S F : Type 0} (c : Flags) (events : EventSys S) (sys : LockSys S F)
    (laws : LockLaws c events sys) where
  open laws use {mode_of}

  lock_with_event_holds :
      (f : F) (m : Mode) (nonblocking : Bool) (o : PrivateOverlapped) (s : S)
      → (lock_with_event c events sys f (flags_of c m nonblocking) o s).0 ≡ ok tt
      → mode_of f (lock_with_event c events sys f (flags_of c m nonblocking) o s).1 ≡ some m
  unfolding lock_with_event
  lock_with_event_holds f m nonblocking o s h =
      let call = sys.lock_file_ex f (flags_of c m nonblocking) o s in
      let waited = sys.get_overlapped_result f o call.1 in
      ground (
        arith,
        laws.lock_file_ex_holds f m nonblocking o s,
        laws.wait_holds f m nonblocking o s,
        eqb_ℤ_iff call.0.result (pos 0),
        eqb_ℤ_iff call.0.last_error c.error_io_pending,
        eqb_ℤ_iff waited.0.result (pos 0),
      )

  lock_file_holds :
      (f : F) (m : Mode) (nonblocking : Bool) (s : S)
      → (lock_file c events sys f (flags_of c m nonblocking) s).0 ≡ ok tt
      → mode_of f (lock_file c events sys f (flags_of c m nonblocking) s).1 ≡ some m
  unfolding lock_file
  lock_file_holds f m nonblocking s h = elim (Result-cases (Overlapped.new events s).0) [
    | inl (o, e) ↦
        let body = lock_with_event c events sys f (flags_of c m nonblocking) o in
        ground (
          arith,
          lock_with_event_holds f m nonblocking o (Overlapped.new events s).1,
          laws.close_keeps f o.event (body (Overlapped.new events s).1).1,
        )
    | inr (x, e) ↦ ground arith
  ]

  -- On calls whose success means what is documented: when an exclusive lock, blocking or not,
  -- reports success, at once, by the fall-through or after a pending wait, the file is locked
  -- exclusively.
  pub lock_exclusive_holds :
      (f : F) (nonblocking : Bool) (s : S)
      → (lock_exclusive c events sys f nonblocking s).0 ≡ ok tt
      → mode_of f (lock_exclusive c events sys f nonblocking s).1 ≡ some Mode.exclusive
  unfolding lock_exclusive
  lock_exclusive_holds f nonblocking s h = ground (
    arith,
    laws.lock_file_holds f s,
    eqb_ℤ_iff (sys.lock_file f s).0.result (pos 0),
    lock_file_holds f Mode.exclusive nonblocking (sys.lock_file f s).1,
  )

  -- On calls whose success means what is documented: when a shared lock, blocking or not, reports
  -- success, at once or after a pending wait, the file is locked shared.
  pub lock_shared_holds :
      (f : F) (nonblocking : Bool) (s : S)
      → (lock_shared c events sys f nonblocking s).0 ≡ ok tt
      → mode_of f (lock_shared c events sys f nonblocking s).1 ≡ some Mode.shared
  unfolding lock_shared
  lock_shared_holds f nonblocking s h = lock_file_holds f Mode.shared nonblocking s h
