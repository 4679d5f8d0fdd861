-- ===== src/Process/Reap/Job/Signalled.antt =====
-- What an execution on Windows guarantees: `NativeProcessBackend` of tools/fs2-dev/src/process.rs.
use fs2_turbo.Base.{
  ℕ, ℤ, pos, eqb_ℤ, Option, none, some, true, ◌≡◌, ◌≢◌, refl, sym, ap, ◌∙◌, inl, inr, Error, Result,
  ok, err, Bool-cases, arith,
}
use mathlib.Core.Path.{subst}
use fs2_turbo.Base.Io.Chains.{bind-ok}
use fs2_turbo.Process.Security.{NativeCall, check_win32}
use fs2_turbo.Process.{OsErrors, ExitStatus, succeeded}
use fs2_turbo.Process.Execute.{execute_with}
use fs2_turbo.Process.Execute.Success.{execute_with-IsSuccess}
use fs2_turbo.Process.Reap.{termination_reap_timeout, completed_windows_job, error_of}
use fs2_turbo.Process.Reap.Job.{
  JobSystem, job_wait_result, native, limited, configure, attach, resume_process, terminate,
  wait_for_exit, complete_observed_exit, native_process_backend,
}

job_wait_result-ok :
    (result : ℕ) (error : ℤ) (timeout : ℕ)
    → job_wait_result result error timeout ≡ ok tt
    → result ≡ 0
unfolding job_wait_result
job_wait_result-ok result error timeout h = ground arith

completed-ok :
    (E : OsErrors) (status : Option ExitStatus) (t : Option Error) (w : Result (Unit {0}))
    → (completed_windows_job E status t w).1 ≡ none
    → w ≡ ok tt
unfolding completed_windows_job
completed-ok E status t (ok _) h = refl
completed-ok E status none (err e) h = absurd cc
completed-ok E status (some x) (err e) h = absurd cc

check_win32-ok {ℓ} :
    {A : Type ℓ} (call : NativeCall A) (a : A)
    → check_win32 call ≡ ok a
    → (call.value ≡ a) × (call.result ≢ pos 0)
unfolding check_win32
check_win32-ok call a h = elim (Bool-cases (eqb_ℤ call.result (pos 0))) [
  | inl zero ↦ absurd (ground (arith, zero))
  | inr other ↦ (ground (arith, other), λ p. absurd (ground (arith, other, p)))
]

module _ {S H : Type 0} (E : OsErrors) (J : JobSystem S H) where
  -- The job that was created for the execution and has its limit, to which the child that was spawned
  -- next was assigned.
  -- The last call was a wait of 5 s for that job, which was signalled.
  pub record IsSignalled (s s' : S) : Type 0 where
    pub job : ℕ
    pub created : (J.create_job (J.create_suspended s)).0.value ≡ job
    pub limited : (J.limit_job job (J.create_job (J.create_suspended s)).1).0.result ≢ pos 0
    pub child : H
    pub running : S
    pub spawned :
        J.spawn (J.limit_job job (J.create_job (J.create_suspended s)).1).1 ≡ (ok child, running)
    pub assigned : (J.assign_process job child running).0.result ≢ pos 0
    pub before : S
    pub after : (J.wait_for_single_object job 5000 before).1 ≡ s'
    pub is_signalled : (J.wait_for_single_object job 5000 before).0.0 ≡ 0

  limited-ok :
      (job job' : ℕ) (r : Result (Unit {0})) (s s' : S)
      → limited E J job r s ≡ (ok job', s')
      → (r ≡ ok tt) × (job ≡ job') × (s ≡ s')
  unfolding limited
  limited-ok job job' (ok _) s s' h =
      let same : ok job ≡ ok job' = ap (λ r. r.0) h in (refl, cc, ap (λ r. r.1) h)
  limited-ok job job' (err e) s s' h = absurd cc

  -- The job with its limit, from the state in which it has been created.
  abbrev limit : S → ℕ → NativeCall (Unit {0}) × S
  limit s job = J.limit_job job (J.create_job (J.create_suspended s)).1

  configure-ok :
      (s s' : S) (job : ℕ)
      → configure E J s ≡ (ok job, s')
      → ((J.create_job (J.create_suspended s)).0.value ≡ job)
        × ((limit s job).0.result ≢ pos 0)
        × (s' ≡ (limit s job).1)
  unfolding configure native
  configure-ok s s' job h =
      let (made, s₁, creates, limits) =
        bind-ok (native E J J.create_job)
          (λ job. λ s. let (call, s') = J.limit_job job s in limited E J job (check_win32 call) s')
          (J.create_suspended s) s' job h in
      let (call, s₂) = J.limit_job made s₁ in
      let (fine, same, ends) = limited-ok made job (check_win32 call) s₂ s' limits in
      let at = ap (λ r. J.limit_job made r.1) creates in
      let moved = ap (limit s) (sym same) ∙ at in
      (
        (check_win32-ok (J.create_job (J.create_suspended s)).0 made (ap (λ r. r.0) creates)).0
            ∙ same,
        subst (λ r. r.0.result ≢ pos 0) (sym moved) (check_win32-ok call tt fine).1,
        sym (ap (λ r. r.1) moved ∙ ends),
      )

  attach-ok :
      (job job' : ℕ) (child : H) (s s' : S)
      → attach E J job child s ≡ ((ok tt, job'), s')
      → (job ≡ job') × ((J.assign_process job child s).0.result ≢ pos 0)
  unfolding attach native
  attach-ok job job' child s s' h =
      let attached = ap (λ r. (r.0.0, r.1)) h in
      let (u, s₁, assigns, resumes) =
        bind-ok (native E J (J.assign_process job child)) (λ _. resume_process E J (J.id child)) s
          s' tt attached in
      (
        ap (λ r. r.0.1) h,
        (check_win32-ok (J.assign_process job child s).0 u (ap (λ r. r.0) assigns)).1,
      )

  completed-signalled :
      (job : ℕ) (child : H) (observed : Option ExitStatus) (s : S)
      → (complete_observed_exit E J job child observed s).0.1 ≡ none
      → (before : S) × ((J.wait_for_single_object job 5000 before).1
          ≡ (complete_observed_exit E J job child observed s).1)
        × ((J.wait_for_single_object job 5000 before).0.0 ≡ 0)
  unfolding complete_observed_exit wait_for_exit
  completed-signalled job child observed s h =
      let (terminated, s₁) = terminate E J job child s in
      let ((result, error), s₂) = J.wait_for_single_object job 5000 s₁ in
      let waited = job_wait_result result error termination_reap_timeout in
      (
        s₁,
        refl,
        job_wait_result-ok result error termination_reap_timeout
            (completed-ok E observed (error_of terminated) waited h),
      )

  -- On Windows, when an execution succeeds, its status has exit code 0, its child was spawned and
  -- assigned to the Job that was created and limited for it, and the last call of the system that
  -- the execution makes, before the Job is dropped, was a wait of five seconds for that Job, which
  -- was signalled.
  pub execute_with-IsSignalled :
      (timeout : ℕ) (s : S)
      → succeeded (execute_with E (native_process_backend E J) timeout s).0.outcome ≡ true
      → (status : ExitStatus) × ((execute_with E (native_process_backend E J) timeout s).0.status
          ≡ some status)
        × (status.code ≡ some (pos 0))
        × (IsSignalled s (execute_with E (native_process_backend E J) timeout s).1)
  unfolding native_process_backend
  execute_with-IsSignalled timeout s good =
      let success = execute_with-IsSuccess E (native_process_backend E J) timeout s good in
      let completed = success.completed in
      let (created, limit_fine, contained) =
        configure-ok s success.contained success.configured_as success.configures in
      let (same, assigned) =
        attach-ok success.configured_as success.containment success.child success.running
          success.started success.attaches in
      let (before, after, is_signalled) =
        completed-signalled success.containment success.child completed.seen completed.before
          (ap (λ r. r.0.1) completed.completes) in
      (
        completed.status,
        completed.reported,
        completed.code_0,
        record {
          job = success.configured_as;
          created = created;
          limited = limit_fine;
          child = success.child;
          running = success.running;
          spawned = ap J.spawn (sym contained) ∙ success.spawns;
          assigned = assigned;
          before = before;
          after =
              ap (λ job. (J.wait_for_single_object job 5000 before).1) same
              ∙ after
              ∙ ap (λ r. r.1) completed.completes;
          is_signalled =
              ap (λ job. (J.wait_for_single_object job 5000 before).0.0) same ∙ is_signalled;
        },
      )
