-- ===== src/Examples/Locks.antt =====
-- Locks on a file that another handle holds shared, and `fcntl` with the flags of Solaris.
use fs2_turbo.Base.{
  ℕ, ℤ, pos, negsuc, Bool, true, false, Option, none, some, ◌≡◌, refl, List, ◌∷◌, [], ◌≢◌, ok,
  eqb_ℤ, ◌==◌, if◌then◌else◌, ◌+◌, arith,
}
use fs2_turbo.Windows.Path.{Call}
use fs2_turbo.Windows.Overlapped.{EventSys, new}
use fs2_turbo.Windows.Overlapped.Balance.{EventLaws}
use fs2_turbo.Windows.Lock
use fs2_turbo.Windows.Lock.{
  LockSys, lock_shared, lock_exclusive, fall_through, lock_file, lock_with_event,
}
use fs2_turbo.Windows.Lock.Holds.{Mode, LockLaws, flags_of, lock_exclusive_holds}
use fs2_turbo.Windows.Lock.Events.{FileCallsKeepEvents, lock_balance}
use fs2_turbo.Unix.Lock as UnixLock
use fs2_turbo.Unix.Solaris.{FcntlConstants, Record, flock_solaris}
use fs2_turbo.Unix.Solaris.Translate.{FlagLaws, lock_calls}

record Process : Type 0 where
  held : Option Mode
  wanted : Option Mode
  open_events : List ℕ

abbrev flags : Lock.Flags
flags = record {
  lockfile_exclusive_lock = 2;
  lockfile_fail_immediately = 1;
  error_io_pending = pos 997;
  error_lock_violation = pos 33;
}

abbrev close_first : List ℕ → List ℕ
close_first [] = []
close_first (e ∷ es) = es

abbrev events : EventSys Process
events = record {
  create_event = λ s. ((68, pos 0), record s { open_events = 68 ∷ s.open_events });
  close_handle = λ h s. record s { open_events = close_first s.open_events };
}

abbrev wanted_mode : ℕ → Mode
wanted_mode flag = if flag == 2 then Mode.exclusive else Mode.shared

-- A lock is refused while one is held, and then waits until that is given up.
abbrev take_now : Option Mode → Process → Call × Process
take_now none s =
    (record { result = pos 1; last_error = pos 0 }, record s { held = some Mode.exclusive })
take_now (some m) s = (record { result = pos 0; last_error = pos 33 }, s)

abbrev sys : LockSys Process ℕ
sys = record {
  lock_file = λ f s. take_now s.held s;
  lock_file_ex = λ f flag o s. (
    record { result = pos 0; last_error = pos 997 },
    record s { wanted = some (wanted_mode flag) },
  );
  get_overlapped_result =
      λ f o s. (record { result = pos 1; last_error = pos 0 }, record s { held = s.wanted });
  unlock_file = λ f s. (record { result = pos 1; last_error = pos 0 }, record s { held = none });
}

abbrev busy : Process
busy = record { held = some Mode.shared; wanted = none; open_events = 12 ∷ [] }

take_now_holds :
    (m : Option Mode) (s : Process)
    → (take_now m s).0.result ≢ pos 0
    → (take_now m s).1.held ≡ some Mode.exclusive
take_now_holds none s h = refl
take_now_holds (some m) s h = ground arith

take_now_keeps : (m : Option Mode) (s : Process) → (take_now m s).1.open_events ≡ s.open_events
take_now_keeps none s = refl
take_now_keeps (some m) s = refl

wanted_back :
    (m : Mode) (nonblocking : Bool)
    → ◌≡◌ {A = Option Mode} (some (wanted_mode (flags_of flags m nonblocking))) (some m)
wanted_back Mode.shared true = refl
wanted_back Mode.shared false = refl
wanted_back Mode.exclusive nonblocking = refl

busy_LockLaws : LockLaws flags events sys
busy_LockLaws = record {
  mode_of = λ f s. s.held;
  lock_file_holds = λ f s h. take_now_holds s.held s h;
  lock_file_ex_holds = λ f m nonblocking o s h. ground arith;
  wait_holds = λ f m nonblocking o s pending h. wanted_back m nonblocking;
  close_keeps = λ f h s. refl;
}

event_EventLaws : EventLaws events
event_EventLaws = record {
  open_events = λ s. s.open_events;
  create_opens = λ s h. refl;
  create_fails = λ s h. ground arith;
  close_closes = λ h s rest e. ground arith;
}

busy_FileCallsKeepEvents : FileCallsKeepEvents events event_EventLaws sys
unfolding event_EventLaws
busy_FileCallsKeepEvents = record {
  lock_file_keeps = λ f s. take_now_keeps s.held s;
  lock_file_ex_keeps = λ f flag o s. refl;
  wait_keeps = λ f o s. refl;
}

exclusive_granted : (lock_exclusive flags events sys 3 false busy).0 ≡ ok tt
unfolding lock_exclusive lock_file lock_with_event new
exclusive_granted = refl

shared_granted : (lock_shared flags events sys 3 false busy).0 ≡ ok tt
unfolding lock_shared lock_file lock_with_event new
shared_granted = refl

lock_exclusive_holds_example :
    (lock_exclusive flags events sys 3 false busy).1.held ≡ some Mode.exclusive
unfolding busy_LockLaws
lock_exclusive_holds_example =
    lock_exclusive_holds flags events sys busy_LockLaws 3 false busy exclusive_granted

lock_balance_example :
    ((lock_shared flags events sys 3 false busy).1.open_events ≡ 12 ∷ [])
    × ((lock_exclusive flags events sys 3 false busy).1.open_events ≡ 12 ∷ [])
unfolding event_EventLaws
lock_balance_example =
    lock_balance flags events sys event_EventLaws busy_FileCallsKeepEvents 3 false busy

abbrev unix_flags : UnixLock.Flags
unix_flags = record { lock_sh = 1; lock_ex = 2; lock_nb = 4; lock_un = 8; ewouldblock = pos 11 }

abbrev constants : FcntlConstants
constants = record {
  f_setlk = pos 6;
  f_setlkw = pos 7;
  f_rdlck = 1;
  f_wrlck = 2;
  f_unlck = 3;
  einval = pos 22;
  eacces = pos 13;
  seek_set = pos 0;
}

-- Another process holds the file: a call that waits succeeds, another is refused.
abbrev fcntl : ℕ → ℤ → Record → ℕ → (ℤ × ℤ) × ℕ
fcntl file cmd lock s =
    if eqb_ℤ cmd constants.f_setlkw then ((pos 0, pos 0), s + 1) else ((negsuc 0, pos 13), s + 1)

unix_FlagLaws : FlagLaws unix_flags
unix_FlagLaws = record {
  shared_blocks = refl;
  exclusive_blocks = refl;
  unlock_blocks = refl;
  shared_tries = omega arith;
  exclusive_tries = omega arith;
  shared_cleared = refl;
  exclusive_cleared = refl;
  shared_ne_exclusive = omega arith;
  shared_ne_unlock = omega arith;
  exclusive_ne_unlock = omega arith;
}

lock_calls_example :
    UnixLock.lock_exclusive unix_flags (flock_solaris unix_flags constants fcntl) 3 false 0
    ≡ (ok tt, 1)
unfolding flock_solaris
lock_calls_example = (lock_calls unix_flags constants fcntl unix_FlagLaws 3 false 0).1
