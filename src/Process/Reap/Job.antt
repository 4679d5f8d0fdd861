-- ===== src/Process/Reap/Job.antt =====
-- The Job object that holds a child on Windows: `ProcessContainment` and `resume_process` of
-- tools/fs2-dev/src/process/containment.rs, and `complete_observed_exit`, `terminate_and_reap` and
-- `NativeProcessBackend` of tools/fs2-dev/src/process.rs.
pub mod Signalled
use fs2_turbo.Base.{
  ℕ, ◌-◌, ◌==◌, leb, not, if◌then◌else◌, String, Bool, ℤ, pos, List, [], ◌∷◌, Option, none, some,
  ErrorKind, Error, os, custom, Result, ok, err, map_ok, u32_max,
}
use fs2_turbo.Base.Io.{Io, lift, ◌>>=◌, ◌>>◌}
use fs2_turbo.Base.Text.{concat, decimal, hex}
use fs2_turbo.Process.{OsErrors, ExitStatus, ChildObservation, as_millis}
use fs2_turbo.Process.Execute.{ProcessBackend, CleanupReport}
use fs2_turbo.Process.Reap.{
  termination_reap_timeout, cleanup_report, reap_terminated_child, completed_windows_job, error_of,
}
use fs2_turbo.Process.Security.{NativeCall, check_win32}

abbrev pub wait_timeout_value : ℕ
wait_timeout_value = 258

-- A thread of a snapshot.
pub record ThreadEntry : Type 0 where
  pub thread_id : ℕ
  pub owner_process_id : ℕ

-- The calls of the system and of `std::process`. A handle is a number. `Thread32First` gives the first
-- thread of a snapshot, and those that `Thread32Next` then gives until it answers 0.
pub record JobSystem (S H : Type 0) : Type 0 where
  pub create_suspended : S → S
  pub spawn : Io S H
  pub id : H → ℕ
  pub kill_child : H → Io S (Unit {0})
  pub wait_timeout : H → ℕ → Io S (Option ExitStatus)
  pub create_job : S → NativeCall ℕ × S
  pub limit_job : ℕ → S → NativeCall (Unit {0}) × S
  pub assign_process : ℕ → H → S → NativeCall (Unit {0}) × S
  pub terminate_job : ℕ → S → NativeCall (Unit {0}) × S
  pub wait_for_single_object : ℕ → ℕ → S → (ℕ × ℤ) × S
  pub create_snapshot : S → NativeCall ℕ × S
  pub thread_first : ℕ → S → NativeCall (ThreadEntry × List ThreadEntry) × S
  pub open_thread : ℕ → S → NativeCall ℕ × S
  pub resume_thread : ℕ → S → (ℕ × ℤ) × S
  pub close_handle : ℕ → S → S

unfoldable pub job_wait_result : ℕ → ℤ → ℕ → Result (Unit {0})
job_wait_result result last_os_error timeout =
    if result == 0
    then ok tt
    else if result == wait_timeout_value
    then err (
        custom ErrorKind.timed_out (
          concat (
            "Windows Job still has associated processes after "
            ∷ decimal (as_millis timeout)
            ∷ " ms"
            ∷ [])))
    else if result == u32_max
    then err (os last_os_error)
    else err
        (custom ErrorKind.other (concat ("unexpected Windows Job wait result " ∷ hex result ∷ [])))

module _ {S H : Type 0} (E : OsErrors) (J : JobSystem S H) where
  unfoldable pub native {ℓ} : {A : Type ℓ} → (S → NativeCall A × S) → Io S A
  unfolding check_win32
  native call s = let (c, s') = call s in (check_win32 c, s')

  -- A handle that is closed after its use, whatever the result.
  unfoldable pub closing : ℕ → Io S (Unit {0}) → Io S (Unit {0})
  closing handle run s = let (result, s') = run s in (result, J.close_handle handle s')

  -- The result of a resumption; the suspend count is -1 on a failure.
  unfoldable pub resumed : ℕ → Io S (Unit {0})
  resumed thread s =
      let ((count, error), s') = J.resume_thread thread s in
      (if count == u32_max then err (os error) else ok tt, s')

  unfoldable pub resume_found : ThreadEntry → Io S (Unit {0})
  unfolding native closing resumed
  resume_found entry =
      native (J.open_thread entry.thread_id) >>= λ thread. closing thread (resumed thread)

  unfoldable pub resume_in : ℕ → ThreadEntry → List ThreadEntry → Io S (Unit {0})
  unfolding resume_found
  resume_in process_id entry [] =
      if entry.owner_process_id == process_id
      then resume_found entry
      else lift (err (custom ErrorKind.not_found "suspended child thread was not found"))
  resume_in process_id entry (next ∷ threads) =
      if entry.owner_process_id == process_id
      then resume_found entry
      else resume_in process_id next threads

  unfoldable pub resume_listed : ℕ → ℕ → Io S (Unit {0})
  unfolding native resume_in
  resume_listed process_id snapshot =
      native (J.thread_first snapshot) >>= λ threads. resume_in process_id threads.0 threads.1

  -- The snapshot is closed at the end, be it a handle or not.
  unfoldable pub resume_process : ℕ → Io S (Unit {0})
  unfolding check_win32 closing resume_listed
  resume_process process_id s =
      let (call, s') = J.create_snapshot s in
      closing call.value (lift (check_win32 call) >>= λ snapshot. resume_listed process_id snapshot)
        s'

  -- The job of a containment that cannot be configured is dropped.
  unfoldable pub limited : ℕ → Result (Unit {0}) → Io S ℕ
  limited job (ok _) s = (ok job, s)
  limited job (err e) s = (err e, J.close_handle job s)

  unfoldable pub configure : Io S ℕ
  unfolding native check_win32 limited
  configure s =
      (native J.create_job >>= λ job.
      λ s. let (call, s') = J.limit_job job s in limited job (check_win32 call) s')
        (J.create_suspended s)

  unfoldable pub attach : ℕ → H → S → (Result (Unit {0}) × ℕ) × S
  unfolding native resume_process
  attach job child s =
      let (result, s') = (native (J.assign_process job child) >> resume_process (J.id child)) s in
      ((result, job), s')

  unfoldable pub wait_for_exit : ℕ → ℕ → Io S (Unit {0})
  unfolding job_wait_result
  wait_for_exit job timeout s =
      let timeout_ms = if leb (as_millis timeout) u32_max then as_millis timeout else u32_max - 1 in
      let ((result, error), s') = J.wait_for_single_object job timeout_ms s in
      (job_wait_result result error timeout, s')

  unfoldable pub terminate : ℕ → H → Io S (Unit {0})
  unfolding native
  terminate job child = native (J.terminate_job job)

  abbrev pub observation : Option ExitStatus → ChildObservation
  observation (some status) = ChildObservation.child_exited (some status)
  observation none = ChildObservation.still_running

  unfoldable pub observe_child_exit : H → ℕ → Io S ChildObservation
  observe_child_exit child timeout s =
      let (status, s') = J.wait_timeout child timeout s in (map_ok observation status, s')

  unfoldable pub complete_observed_exit : ℕ → H → Option ExitStatus → S → CleanupReport × S
  unfolding terminate wait_for_exit completed_windows_job
  complete_observed_exit job child observed_status s =
      let (terminated, s₁) = terminate job child s in
      let (waited, s₂) = wait_for_exit job termination_reap_timeout s₁ in
      (completed_windows_job E observed_status (error_of terminated) waited, s₂)

  unfoldable pub terminate_and_reap : ℕ → H → S → CleanupReport × S
  unfolding terminate wait_for_exit reap_terminated_child cleanup_report
  terminate_and_reap job child s =
      let ((status, errors), s₁) =
        reap_terminated_child E (terminate job child) (J.kill_child child)
          (J.wait_timeout child termination_reap_timeout) s in
      let (verification, s₂) = wait_for_exit job termination_reap_timeout s₁ in
      (cleanup_report E status errors verification "Windows Job", s₂)

  unfoldable pub native_process_backend : ProcessBackend S
  unfolding configure attach observe_child_exit complete_observed_exit terminate_and_reap
  native_process_backend = record {
    Containment = ℕ;
    Child = H;
    configure = configure;
    spawn = J.spawn;
    attach = attach;
    observe = observe_child_exit;
    complete = complete_observed_exit;
    cleanup = terminate_and_reap;
  }
