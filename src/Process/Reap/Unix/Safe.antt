-- ===== src/Process/Reap/Unix/Safe.antt =====
-- What an execution on Unix guarantees: `NativeProcessBackend` of tools/fs2-dev/src/process.rs.
use fs2_turbo.Base.{
  ℕ, ◌+◌, ◌≤◌, ℤ, pos, Option, none, some, true, ◌≡◌, refl, ap, Result, ok, err, arith,
}
use mathlib.Core.Path.{subst}
use fs2_turbo.Process.{OsErrors, ExitStatus, succeeded}
use fs2_turbo.Process.Execute.{execute_with}
use fs2_turbo.Process.Execute.Success.{execute_with-IsSuccess}
use fs2_turbo.Process.Poll.{looks}
use fs2_turbo.Process.Poll.Group.{checked_process_id, wait_for_process_group_exit_with}
use fs2_turbo.Process.Poll.Group.Laws.{
  IsGone, wait_for_process_group_exit_with_ends, wait_for_process_group_exit_with-ok,
}
use fs2_turbo.Process.Reap.{
  termination_reap_timeout, error_of, cleanup_report, completed_unix_group, reap_terminated_child,
}
use fs2_turbo.Process.Reap.Reported.{
  cleanup_report-none, completed_unix_group-none, reap_terminated_child-empty,
}
use fs2_turbo.Process.Reap.Unix.{
  UnixSystem, clock_from, native_group_wait, or_fault, send, terminate, verify_group,
  wait_for_process_group_exit, complete_observed_exit, terminate_and_reap, native_process_backend,
  negate,
}

module _ {S H : Type 0} (E : OsErrors) (U : UnixSystem S H) where
  -- The last thing the system was asked: whether the group of the child still exists. It does not.
  pub record IsVerified (child : H) (s' : S) : Type 0 where
    pub group : ℤ
    pub is_group : checked_process_id (U.id child) ≡ ok group
    pub before : S
    pub after : (send E U (negate group) (pos 0) before).1 ≡ s'
    pub is_gone : IsGone (send E U (negate group) (pos 0) before).0

  or_fault-ok :
      (s s' : S) (o : Option (Result (Unit {0}) × S))
      → or_fault s o ≡ (ok tt, s')
      → o ≡ some (ok tt, s')
  or_fault-ok s s' (some r) h = ap some h
  or_fault-ok s s' none h = absurd cc

  verify_group-IsVerified :
      (child : H) (id : Result ℤ) (s : S)
      → checked_process_id (U.id child) ≡ id
      → (verify_group E U id s).0 ≡ ok tt
      → IsVerified child (verify_group E U id s).1
  unfolding verify_group wait_for_process_group_exit native_group_wait
  verify_group-IsVerified child (ok g) s same h =
      let (s₀, after, answer) =
        wait_for_process_group_exit_with-ok E (native_group_wait E U (U.now s)) g
          termination_reap_timeout (looks termination_reap_timeout) s (verify_group E U (ok g) s).1
          (or_fault-ok s _ _ cc) in
      record { group = g; is_group = same; before = s₀; after = after; is_gone = answer }
  verify_group-IsVerified child (err e) s same h = absurd cc

  -- On Unix, when the cleanup of a child reports no error, its containment was terminated without
  -- an error, its status was read, and its group was last seen not to exist.
  pub terminate_and_reap-none :
      (containment : Option ℤ) (child : H) (s : S)
      → (terminate_and_reap E U containment child s).0.1 ≡ none
      → ((terminate E U containment child s).0 ≡ ok tt)
        × ((status : ExitStatus) × ((terminate_and_reap E U containment child s).0.0 ≡ some status))
        × (IsVerified child (terminate_and_reap E U containment child s).1)
  unfolding terminate_and_reap cleanup_report
  terminate_and_reap-none containment child s h =
      let kill = U.kill_child child in
      let wait = U.wait_timeout child termination_reap_timeout in
      let reaping = reap_terminated_child E (terminate E U containment child) kill wait s in
      let id = checked_process_id (U.id child) in
      let verification = (verify_group E U id reaping.1).0 in
      let (empty, fine) =
        cleanup_report-none E reaping.0.0 reaping.0.1 verification "process-group" h in
      let (terminated, status, reaped) =
        reap_terminated_child-empty E (terminate E U containment child) kill wait s empty in
      (terminated, (status, reaped), verify_group-IsVerified child id reaping.1 refl fine)

  -- The same of a child that was seen to exit.
  pub complete_observed_exit-none :
      (containment : Option ℤ) (child : H) (observed : Option ExitStatus) (s : S)
      → (complete_observed_exit E U containment child observed s).0.1 ≡ none
      → ((status : ExitStatus) × ((complete_observed_exit E U containment child observed s).0.0
            ≡ some status))
        × (IsVerified child (complete_observed_exit E U containment child observed s).1)
  unfolding complete_observed_exit completed_unix_group cleanup_report
  complete_observed_exit-none containment child observed s h =
      let (terminated, s₁) = terminate E U containment child s in
      let (waited, s₂) = U.wait child s₁ in
      let id = checked_process_id (U.id child) in
      let verification = (verify_group E U id s₂).0 in
      let (fine, status, reaped, same) =
        completed_unix_group-none E waited (error_of terminated) verification h in
      ((status, reaped), verify_group-IsVerified child id s₂ refl fine)

  -- On Unix, when an execution succeeds, its status is that of a child with exit code 0, and the
  -- last thing that the system was asked is whether the child's process group still exists, which
  -- it denied.
  pub execute_with-IsVerified :
      (timeout : ℕ) (s : S)
      → succeeded (execute_with E (native_process_backend E U) timeout s).0.outcome ≡ true
      → (child : H) × (status : ExitStatus) × ((execute_with E
            (native_process_backend E U)
            timeout
            s).0.status
          ≡ some status)
        × (status.code ≡ some (pos 0))
        × (IsVerified child (execute_with E (native_process_backend E U) timeout s).1)
  unfolding native_process_backend
  execute_with-IsVerified timeout s good =
      let success = execute_with-IsSuccess E (native_process_backend E U) timeout s good in
      let completed = success.completed in
      let done = completed.completes in
      let (reaped, verified) =
        complete_observed_exit-none success.containment success.child completed.seen
          completed.before (ap (λ r. r.0.1) done) in
      (
        success.child,
        completed.status,
        completed.reported,
        completed.code_0,
        subst (IsVerified success.child) (ap (λ r. r.1) done) verified,
      )

  -- A kill takes no less than no time, and a sleep lasts at least as long as asked.
  pub record IsTimedSystem : Type 0 where
    pub kill_takes_time : (pid signal : ℤ) (s : S) → U.now s ≤ U.now (U.kill pid signal s).1
    pub sleep_lasts : (d : ℕ) (s : S) → U.now s + d ≤ U.now (U.sleep d s)

  pub wait_for_process_group_exit_returns :
      (process_group : ℤ) (timeout : ℕ) (s : S)
      → IsTimedSystem
      → (r : Result (Unit {0}) × S) × (wait_for_process_group_exit_with E
            (native_group_wait E U (U.now s))
            (looks timeout)
            process_group
            timeout
            s
          ≡ some r)
  unfolding native_group_wait send clock_from
  wait_for_process_group_exit_returns process_group timeout s h =
      wait_for_process_group_exit_with_ends E (native_group_wait E U (U.now s)) process_group
        timeout {Valid = λ s'. U.now s ≤ U.now s'} (looks timeout) s
        (record {
          probe_valid =
              λ s' v. omega (arith, v, h.kill_takes_time (negate process_group) (pos 0) s');
          sleep_valid = λ d s' v. omega (arith, v, h.sleep_lasts d s');
          probe_takes_time =
              λ s' v. omega (arith, v, h.kill_takes_time (negate process_group) (pos 0) s');
          sleep_lasts = λ d s' v. omega (arith, v, h.sleep_lasts d s');
        })
        (omega arith) (omega arith)
