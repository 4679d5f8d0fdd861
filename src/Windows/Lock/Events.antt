-- ===== src/Windows/Lock/Events.antt =====
-- No lock operation leaks an event or closes another's.
use fs2_turbo.Base.{ℕ, Bool, ◌≡◌, Result-cases, inl, inr, arith}
use fs2_turbo.Windows.Overlapped
use fs2_turbo.Windows.Overlapped.{EventSys, PrivateOverlapped, with_overlapped}
use fs2_turbo.Windows.Overlapped.Balance.{EventLaws, with_overlapped_balance, new_fails}
use fs2_turbo.Windows.Lock.{Flags, LockSys, lock_with_event, lock_file, lock_shared, lock_exclusive}

-- The calls on files open and close no event.
pub record FileCallsKeepEvents {S F : Type 0} (events : EventSys S) (laws : EventLaws events)
    (sys : LockSys S F) : Type 0 where
  pub lock_file_keeps :
      (f : F) (s : S) → laws.open_events (sys.lock_file f s).1 ≡ laws.open_events s
  pub lock_file_ex_keeps :
      (f : F) (flags : ℕ) (o : PrivateOverlapped) (s : S)
      → laws.open_events (sys.lock_file_ex f flags o s).1 ≡ laws.open_events s
  pub wait_keeps :
      (f : F) (o : PrivateOverlapped) (s : S)
      → laws.open_events (sys.get_overlapped_result f o s).1 ≡ laws.open_events s

module _ {S F : Type 0} (c : Flags) (events : EventSys S) (sys : LockSys S F)
    (laws : EventLaws events) (keeps : FileCallsKeepEvents events laws sys) where
  lock_with_event_keeps :
      (f : F) (flags : ℕ) (o : PrivateOverlapped) (s : S)
      → laws.open_events (lock_with_event c events sys f flags o s).1 ≡ laws.open_events s
  unfolding lock_with_event
  lock_with_event_keeps f flags o s = ground (
    arith,
    keeps.lock_file_ex_keeps f flags o s,
    keeps.wait_keeps f o (sys.lock_file_ex f flags o s).1,
  )

  lock_file_balance :
      (f : F) (flags : ℕ) (s : S)
      → laws.open_events (lock_file c events sys f flags s).1 ≡ laws.open_events s
  unfolding lock_file
  lock_file_balance f flags s = elim (Result-cases (Overlapped.new events s).0) [
    | inl (o, e) ↦
        let body = lock_with_event c events sys f flags in
        ground (
          arith,
          with_overlapped_balance events laws body s o e
              (lock_with_event_keeps f flags o (Overlapped.new events s).1),
        )
    | inr (x, e) ↦ ground (arith, new_fails events laws s e)
  ]

  -- Whatever the calls answer, a shared or exclusive lock operation leaves exactly the open events
  -- that it found: the event that it created is closed once, by its untagged handle.
  pub lock_balance :
      (f : F) (nonblocking : Bool) (s : S)
      → (laws.open_events (lock_shared c events sys f nonblocking s).1 ≡ laws.open_events s)
        × (laws.open_events (lock_exclusive c events sys f nonblocking s).1 ≡ laws.open_events s)
  unfolding lock_shared lock_exclusive
  lock_balance f nonblocking s = ground (
    arith,
    keeps.lock_file_keeps f s,
    lock_file_balance f c.lockfile_fail_immediately s,
    lock_file_balance f 0 s,
    lock_file_balance f c.lockfile_exclusive_lock (sys.lock_file f s).1,
  )
