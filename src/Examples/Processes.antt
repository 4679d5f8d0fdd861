-- ===== src/Examples/Processes.antt =====
-- A Unix system with one child, on which the theorems on processes are applied.
use fs2_turbo.Base.{
  ℕ, suc, ◌+◌, ◌≤◌, leb, if◌then◌else◌, Bool, true, false, ℤ, pos, negsuc, eqb_ℤ, [], ◌∷◌, none,
  some, ◌≡◌, ◌⊎◌, inl, inr, ◌↔◌, refl, os, ErrorKind, Result, ok, err, arith,
}
use fs2_turbo.Base.Text.{decimal, parse_u64, unsigned_digits, digits}
use fs2_turbo.Process.{OsErrors, ExitStatus, ProcessOutcome, Execution, succeeded, from_secs}
use fs2_turbo.Process.Timeout.{
  timeout_from_value, timeout_from_value-decimal, timeout_from_value_bounds,
}
use fs2_turbo.Process.Capture.{
  CaptureBackend, Rendering, Output, capture_with_backend, render_diagnostic_stream,
}
use fs2_turbo.Process.Capture.Bounded.{IsCaptured, capture_with_backend-IsCaptured}
use fs2_turbo.Process.Execute.{execute_with}
use fs2_turbo.Process.Execute.Lifecycle.{Steps, idle, over}
use fs2_turbo.Process.Execute.Lifecycle.Exact.{execute_with_iff}
use fs2_turbo.Process.Execute.Released.{logged, IsReleased, execute_with-IsReleased}
use fs2_turbo.Process.Poll.Group.{GroupWaitBackend, wait_for_process_group_exit_with}
use fs2_turbo.Process.Poll.Group.Laws.{
  IsGone, gone, IsPresent, present, IsTimed, IsLeaving, wait_for_process_group_exit_with_ends,
  wait_for_process_group_exit_with-ok, wait_for_process_group_exit_with-IsLeaving,
}
use fs2_turbo.Process.Reap.Unix.{UnixSystem, native_process_backend, terminate, terminate_and_reap}
use fs2_turbo.Process.Reap.Unix.Safe.{IsVerified, execute_with-IsVerified, terminate_and_reap-none}

-- A state is a time in nanoseconds. A group is there until a millisecond has passed.
abbrev plain_errors : OsErrors
plain_errors = record { os_text = λ c. "failed"; os_kind = λ c. ErrorKind.other }

abbrev leave_time : ℕ
leave_time = 1000000

abbrev probe_at : ℕ → Result (Unit {0})
probe_at t = if leb leave_time t then err (os (pos 3)) else ok tt

abbrev leaving : GroupWaitBackend ℕ
leaving = record {
  probe_group = λ g t. (probe_at t, t);
  clock = record { elapsed = λ t. t; sleep = λ d t. t + d };
}

abbrev success : ExitStatus
success = record {
  code = some (pos 0);
  unix = some (record { signal = none; core_dumped = false });
}

-- Every call of a child succeeds, and the group is gone when a millisecond has passed.
abbrev quiet : UnixSystem ℕ (Unit {0})
quiet = record {
  process_group_0 = λ t. t;
  spawn = λ t. (ok tt, t);
  id = λ _. 42;
  kill_child = λ _ t. (ok tt, t);
  wait = λ _ t. (ok success, t);
  wait_timeout = λ _ d t. (ok (some success), t);
  kill = λ p signal t.
      (if eqb_ℤ signal (pos 0) then if leb leave_time t then negsuc 0 else pos 0 else pos 0, t);
  waitid = λ pid t. ((pos 0, if leb leave_time t then pos 42 else pos 0), t);
  errno = λ t. pos 3;
  now = λ t. t;
  sleep = λ d t. t + d;
}

leaving-IsTimed : (g : ℤ) → IsTimed leaving g (λ _. Unit {0})
leaving-IsTimed g = record {
  probe_valid = λ t v. v;
  sleep_valid = λ d t v. v;
  probe_takes_time = λ t v. omega arith;
  sleep_lasts = λ d t v. omega arith;
}

answer-cases :
    (late : Bool)
    → IsPresent (if late then err (os (pos 3)) else ok tt)
      ⊎ IsGone (if late then err (os (pos 3)) else ok tt)
answer-cases true = inr (gone refl)
answer-cases false = inl present

answer-late : (late : Bool) → late ≡ true → IsGone (if late then err (os (pos 3)) else ok tt)
answer-late true h = gone refl
answer-late false h = absurd cc

leaving-IsLeaving : (g : ℤ) → IsLeaving plain_errors leaving g (from_secs 5) leave_time
leaving-IsLeaving g = record {
  before = λ t. answer-cases (leb leave_time t);
  after = λ t h. answer-late (leb leave_time t) (ground arith);
}

wait_for_process_group_exit_with_ends_example :
    (r : Result (Unit {0}) × ℕ) × (wait_for_process_group_exit_with plain_errors leaving 502
        (pos 42)
        (from_secs 5)
        0
      ≡ some r)
wait_for_process_group_exit_with_ends_example =
    wait_for_process_group_exit_with_ends plain_errors leaving (pos 42) (from_secs 5) 502 0
      (leaving-IsTimed (pos 42)) tt (omega arith)

wait_for_process_group_exit_with-IsLeaving_example :
    (t : ℕ) × (wait_for_process_group_exit_with plain_errors leaving 502 (pos 42) (from_secs 5) 0
      ≡ some (ok tt, t))
wait_for_process_group_exit_with-IsLeaving_example =
    wait_for_process_group_exit_with-IsLeaving plain_errors leaving (pos 42) (from_secs 5) 502
      leave_time 0 (leaving-IsTimed (pos 42)) tt (omega arith) (omega arith)
      (leaving-IsLeaving (pos 42))

waited :
    wait_for_process_group_exit_with plain_errors leaving 2 (pos 42) (from_secs 5) 0
    ≡ some (ok tt, 10000000)
unfolding wait_for_process_group_exit_with
waited = refl

wait_for_process_group_exit_with-ok_example :
    (t : ℕ) × ((leaving.probe_group (pos 42) t).1 ≡ 10000000)
    × IsGone (leaving.probe_group (pos 42) t).0
wait_for_process_group_exit_with-ok_example =
    wait_for_process_group_exit_with-ok plain_errors leaving (pos 42) (from_secs 5) 2 0 10000000
      waited

-- The child exits after a look, and its group is gone at the first probe.
quiet_run :
    execute_with plain_errors (native_process_backend plain_errors quiet) (from_secs 60) 0
    ≡ (record { outcome = ProcessOutcome.exited (pos 0); status = some success }, 10000000)
unfolding execute_with native_process_backend
quiet_run = refl

quiet_succeeds :
    succeeded
      (execute_with plain_errors
        (native_process_backend plain_errors quiet)
        (from_secs 60)
        0).0.outcome
    ≡ true
unfolding execute_with native_process_backend succeeded
quiet_succeeds = refl

abbrev quiet_outcome : Execution × ℕ
quiet_outcome =
    (record { outcome = ProcessOutcome.exited (pos 0); status = some success }, 10000000)

execute_with-IsVerified_example :
    (child : Unit {0}) × (status : ExitStatus) × ((execute_with plain_errors
        (native_process_backend plain_errors quiet)
        (from_secs 60)
        0).0.status
      ≡ some status)
    × (status.code ≡ some (pos 0))
    × IsVerified plain_errors quiet child
        (execute_with plain_errors (native_process_backend plain_errors quiet) (from_secs 60) 0).1
execute_with-IsVerified_example =
    execute_with-IsVerified plain_errors quiet (from_secs 60) 0 quiet_succeeds

execute_with_iff_example :
    Steps plain_errors
      (native_process_backend plain_errors quiet)
      (from_secs 60)
      (idle, 0)
      (over quiet_outcome.0, quiet_outcome.1)
    ↔ (execute_with plain_errors (native_process_backend plain_errors quiet) (from_secs 60) 0
        ≡ quiet_outcome)
execute_with_iff_example =
    execute_with_iff plain_errors (native_process_backend plain_errors quiet) (from_secs 60) 0
      quiet_outcome

cleaned : (terminate_and_reap plain_errors quiet (some (pos 42)) tt 2000000).0.1 ≡ none
unfolding terminate_and_reap
cleaned = refl

terminate_and_reap-none_example :
    ((terminate plain_errors quiet (some (pos 42)) tt 2000000).0 ≡ ok tt)
    × ((status : ExitStatus) × ((terminate_and_reap plain_errors quiet
            (some (pos 42))
            tt
            2000000).0.0
          ≡ some status))
    × IsVerified plain_errors quiet tt
        (terminate_and_reap plain_errors quiet (some (pos 42)) tt 2000000).1
terminate_and_reap-none_example =
    terminate_and_reap-none plain_errors quiet (some (pos 42)) tt 2000000 cleaned

timeout_from_value-decimal_example :
    timeout_from_value (some (decimal 86400)) ≡ ok (from_secs 86400)
timeout_from_value-decimal_example = timeout_from_value-decimal 86400 (omega arith) (omega arith)

ninety : timeout_from_value (some "90") ≡ ok (from_secs 90)
unfolding timeout_from_value parse_u64 unsigned_digits digits
ninety = refl

timeout_from_value_bounds_example : from_secs 1 ≤ from_secs 90 × from_secs 90 ≤ from_secs 86400
timeout_from_value_bounds_example = timeout_from_value_bounds (some "90") (from_secs 90) ninety

execute_with-IsReleased_example :
    let r =
      execute_with plain_errors
        (logged (native_process_backend plain_errors quiet))
        (from_secs 60)
        (0, []) in
    (r.0
      ≡ (execute_with plain_errors (native_process_backend plain_errors quiet) (from_secs 60) 0).0)
    × (r.1.0
        ≡ (execute_with plain_errors
            (native_process_backend plain_errors quiet)
            (from_secs 60)
            0).1)
    × IsReleased r.1.1
execute_with-IsReleased_example =
    execute_with-IsReleased plain_errors (native_process_backend plain_errors quiet) (from_secs 60)
      0

-- A backend whose files hold three bytes.
abbrev three_bytes : CaptureBackend ℕ (Unit {0}) ℕ
three_bytes = record {
  temporary = λ t. (ok tt, t);
  file = λ _ t. (ok t, suc t);
  clone_file = λ f t. (ok f, t);
  rewind = λ f t. (ok tt, t);
  read_to_end = λ f t. (ok (104 ∷ 105 ∷ 10 ∷ []), t);
  metadata_len = λ f t. (ok 3, t);
  set_streams = λ f g t. t;
  reset_streams = λ t. t;
  timeout = λ t. (ok (from_secs 60), t);
  execute = λ timeout t. (quiet_outcome.0, t);
}

abbrev no_rendering : Rendering
no_rendering = record { lossy_trimmed = λ bytes. ""; escape_default = λ s. s }

abbrev captured : Output
captured = record { status = success; stdout = 104 ∷ 105 ∷ 10 ∷ []; stderr = 104 ∷ 105 ∷ 10 ∷ [] }

captures :
    capture_with_backend plain_errors no_rendering three_bytes "rustc -vV" 0 ≡ (ok captured, 2)
unfolding capture_with_backend
captures = refl

capture_with_backend-IsCaptured_example :
    IsCaptured plain_errors no_rendering three_bytes 0 2 captured
capture_with_backend-IsCaptured_example =
    capture_with_backend-IsCaptured plain_errors no_rendering three_bytes "rustc -vV" 0 2 captured
      captures

-- A line that begins like a workflow command is shown behind a mark.
marked :
    render_diagnostic_stream
      (record { lossy_trimmed = λ bytes. "a\n::b"; escape_default = λ s. s })
      []
    ≡ "a\n| ::b"
unfolding render_diagnostic_stream
marked = refl
