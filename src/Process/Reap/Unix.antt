-- ===== src/Process/Reap/Unix.antt =====
-- The process group of a child on Unix: `ProcessContainment` of
-- tools/fs2-dev/src/process/containment.rs, and `complete_observed_exit`, `terminate_and_reap` and
-- `NativeProcessBackend` of tools/fs2-dev/src/process.rs.
pub mod Safe
use fs2_turbo.Base.{
  ℕ, zero, suc, ◌-◌, String, Bool, if◌then◌else◌, eqb_ℤ, ℤ, pos, negsuc, List, Option, none, some,
  Error, os, fault, raw_os_error, Result, ok, err, Io.Io, Io.lift,
}
use fs2_turbo.Process.{OsErrors, ExitStatus, ChildObservation}
use fs2_turbo.Process.Execute.{ProcessBackend, CleanupReport}
use fs2_turbo.Process.Poll.{Clock, looks}
use fs2_turbo.Process.Poll.Group.{
  checked_process_id, GroupWaitBackend, wait_for_process_group_exit_with, esrch, Waitid,
  waitid_observe_child_exit,
}
use fs2_turbo.Process.Reap.{
  termination_reap_timeout, cleanup_report, reap_terminated_child, completed_unix_group, error_of,
}

abbrev pub negate : ℤ → ℤ
negate (pos zero) = pos 0
negate (pos (suc n)) = negsuc n
negate (negsuc n) = pos (suc n)

abbrev pub sigkill : ℤ
sigkill = pos 9

-- The calls of the system and of `std::process` that the tool makes; `H` is a child.
pub record UnixSystem (S H : Type 0) : Type 0 where
  pub process_group_0 : S → S
  pub spawn : Io S H
  pub id : H → ℕ
  pub kill_child : H → Io S (Unit {0})
  pub wait : H → Io S ExitStatus
  pub wait_timeout : H → ℕ → Io S (Option ExitStatus)
  pub kill : ℤ → ℤ → S → ℤ × S
  pub waitid : ℤ → S → (ℤ × ℤ) × S
  pub errno : S → ℤ
  pub now : S → ℕ
  pub sleep : ℕ → S → S

unfoldable pub group_termination_result : Option Error → Result (Unit {0})
group_termination_result none = ok tt
group_termination_result (some error) = elim (raw_os_error error) [
  | some c ↦ if eqb_ℤ c esrch then ok tt else err error
  | none ↦ err error
]

-- A loop that is out of looks is a fault; `native_wait-no_fault` shows that there are enough.
abbrev pub or_fault {ℓ} : {S : Type 0} {A : Type ℓ} → S → Option (Result A × S) → Result A × S
or_fault s (some r) = r
or_fault s none = (err fault, s)

module _ {S H : Type 0} (E : OsErrors) (U : UnixSystem S H) where
  -- The result of `libc::kill` as `std` reports it.
  unfoldable pub send : ℤ → ℤ → Io S (Unit {0})
  send pid signal s =
      let (result, s') = U.kill pid signal s in
      (if eqb_ℤ result (pos 0) then ok tt else err (os (U.errno s')), s')

  -- The process group of the containment; none before the child is attached.
  unfoldable pub configure : Io S (Option ℤ)
  configure s = (ok none, U.process_group_0 s)

  unfoldable pub attach : Option ℤ → H → S → (Result (Unit {0}) × Option ℤ) × S
  unfolding checked_process_id
  attach process_group child s = (
    elim (checked_process_id (U.id child)) [
      | ok group ↦ (ok tt, some group)
      | err e ↦ (err e, process_group)
    ],
    s,
  )

  unfoldable pub terminate : Option ℤ → H → Io S (Unit {0})
  unfolding send group_termination_result
  terminate none child s = U.kill_child child s
  terminate (some process_group) child s =
      let (killed, s') = send (negate process_group) sigkill s in
      (group_termination_result (error_of killed), s')

  -- `Instant::now` is the clock's start.
  unfoldable pub clock_from : ℕ → Clock S
  clock_from started = record { elapsed = λ s. U.now s - started; sleep = U.sleep }

  unfoldable pub native_group_wait : ℕ → GroupWaitBackend S
  unfolding clock_from send
  native_group_wait started = record {
    probe_group = λ process_group. send (negate process_group) (pos 0);
    clock = clock_from started;
  }

  unfoldable pub wait_for_process_group_exit : ℤ → ℕ → Io S (Unit {0})
  unfolding wait_for_process_group_exit_with native_group_wait
  wait_for_process_group_exit process_group timeout s = or_fault s (
      wait_for_process_group_exit_with E (native_group_wait (U.now s)) (looks timeout) process_group
        timeout s)

  unfoldable pub verify_group : Result ℤ → Io S (Unit {0})
  unfolding wait_for_process_group_exit
  verify_group (ok group) s = wait_for_process_group_exit group termination_reap_timeout s
  verify_group (err e) s = (err e, s)

  unfoldable pub observe_child_exit : H → ℕ → Io S ChildObservation
  unfolding waitid_observe_child_exit clock_from
  observe_child_exit child timeout s = or_fault s (
      waitid_observe_child_exit
        (record { waitid = U.waitid; errno = U.errno; clock = clock_from (U.now s) })
        (looks timeout) (U.id child) timeout s)

  unfoldable pub complete_observed_exit : Option ℤ → H → Option ExitStatus → S → CleanupReport × S
  unfolding terminate verify_group completed_unix_group checked_process_id
  complete_observed_exit containment child observed_status s =
      let (terminated, s₁) = terminate containment child s in
      let (status, s₂) = U.wait child s₁ in
      let (verification, s₃) = verify_group (checked_process_id (U.id child)) s₂ in
      (completed_unix_group E status (error_of terminated) verification, s₃)

  unfoldable pub terminate_and_reap : Option ℤ → H → S → CleanupReport × S
  unfolding terminate verify_group reap_terminated_child cleanup_report checked_process_id
  terminate_and_reap containment child s =
      let ((status, errors), s₁) =
        reap_terminated_child E (terminate containment child) (U.kill_child child)
          (U.wait_timeout child termination_reap_timeout) s in
      let (verification, s₂) = verify_group (checked_process_id (U.id child)) s₁ in
      (cleanup_report E status errors verification "process-group", s₂)

  unfoldable pub native_process_backend : ProcessBackend S
  unfolding configure attach observe_child_exit complete_observed_exit terminate_and_reap
  native_process_backend = record {
    Containment = Option ℤ;
    Child = H;
    configure = configure;
    spawn = U.spawn;
    attach = attach;
    observe = observe_child_exit;
    complete = complete_observed_exit;
    cleanup = terminate_and_reap;
  }
