-- ===== src/Process/Execute/Success.antt =====
-- When an execution succeeds: `ProcessOutcome::succeeded` of `execute_with` in
-- tools/fs2-dev/src/process.rs.
use fs2_turbo.Base.{
  ℕ, true, ℤ, pos, negsuc, Option, none, some, ◌≡◌, ◌↔◌, refl, ap, ◌∙◌, Result, ok, err, arith,
}
use fs2_turbo.Process.{
  OsErrors, ExitStatus, ProcessOutcome, Execution, ChildObservation, succeeded, status_outcome,
  status_outcome_with_code, finished_execution,
}
use fs2_turbo.Process.Execute.{
  ProcessBackend, CleanupReport, finished, expired, not_observed, not_attached, observed, attached,
  spawned, configured, execute_with,
}

succeeded_iff : (code : ℤ) → (succeeded (ProcessOutcome.exited code) ≡ true) ↔ (code ≡ pos 0)
unfolding succeeded
succeeded_iff (pos n) = ground arith
succeeded_iff (negsuc n) = ground arith

succeeded-code :
    (status : ExitStatus) (code : Option ℤ)
    → succeeded (status_outcome_with_code status code) ≡ true
    → code ≡ some (pos 0)
unfolding status_outcome_with_code succeeded
succeeded-code status (some code) h = ap some ((succeeded_iff code).0 h)
succeeded-code status none h = absurd cc

finished-succeeded :
    (r : CleanupReport)
    → succeeded (finished r).outcome ≡ true
    → (status : ExitStatus) × (r ≡ (some status, none)) × (status.code ≡ some (pos 0))
unfolding finished finished_execution status_outcome succeeded
finished-succeeded (some status, none) h = (status, refl, succeeded-code status status.code h)
finished-succeeded (some status, some error) h = absurd cc
finished-succeeded (none, some error) h = absurd cc
finished-succeeded (none, none) h = absurd cc

module _ {S : Type 0} (E : OsErrors) (B : ProcessBackend S) (timeout : ℕ) where
  -- A child that was seen to exit, and whose completion gave its status, code 0, and reported no error.
  pub record IsCompleted (containment : B.Containment) (child : B.Child) (started : S)
      (x : Execution) (s' : S) : Type 0 where
    pub seen : Option ExitStatus
    pub before : S
    pub observes :
        B.observe child timeout started ≡ (ok (ChildObservation.child_exited seen), before)
    pub status : ExitStatus
    pub completes : B.complete containment child seen before ≡ ((some status, none), s')
    pub reported : x.status ≡ some status
    pub code_0 : status.code ≡ some (pos 0)

  -- Such a child, which was spawned and attached to the containment that was configured for it.
  pub record IsSuccess (s : S) (x : Execution) (s' : S) : Type 0 where
    pub configured_as : B.Containment
    pub containment : B.Containment
    pub child : B.Child
    pub contained : S
    pub running : S
    pub started : S
    pub configures : B.configure s ≡ (ok configured_as, contained)
    pub spawns : B.spawn contained ≡ (ok child, running)
    pub attaches : B.attach configured_as child running ≡ ((ok tt, containment), started)
    pub completed : IsCompleted containment child started x s'

  complete-IsCompleted :
      (c : B.Containment) (h : B.Child) (seen : Option ExitStatus) (s₀ s s' : S) (r : CleanupReport)
      → B.observe h timeout s₀ ≡ (ok (ChildObservation.child_exited seen), s)
      → B.complete c h seen s ≡ (r, s')
      → succeeded (finished r).outcome ≡ true
      → IsCompleted c h s₀ (finished r) s'
  unfolding finished finished_execution
  complete-IsCompleted c h seen s₀ s s' r o e good =
      let (status, clean, code_0) = finished-succeeded r good in
      record {
        seen = seen;
        before = s;
        observes = o;
        status = status;
        completes = e ∙ ap (λ r. (r, s')) clean;
        reported = ap (λ r. (finished r).status) clean;
        code_0 = code_0;
      }

  observed-IsCompleted :
      (c : B.Containment) (h : B.Child) (o : Result ChildObservation) (s₀ s : S)
      → B.observe h timeout s₀ ≡ (o, s)
      → succeeded (observed E B timeout c h o s).0.outcome ≡ true
      → IsCompleted c h s₀ (observed E B timeout c h o s).0 (observed E B timeout c h o s).1
  unfolding observed expired not_observed succeeded
  observed-IsCompleted c h (ok (ChildObservation.child_exited seen)) s₀ s e good =
      complete-IsCompleted c h seen s₀ s (B.complete c h seen s).1 (B.complete c h seen s).0 e refl
        good
  observed-IsCompleted c h (ok ChildObservation.still_running) s₀ s e good = absurd cc
  observed-IsCompleted c h (err x) s₀ s e good = absurd cc

  attached-IsSuccess :
      (c c' : B.Containment) (h : B.Child) (a : Result (Unit {0})) (s₀ s₁ s₂ s₃ : S)
      → B.configure s₀ ≡ (ok c, s₁)
      → B.spawn s₁ ≡ (ok h, s₂)
      → B.attach c h s₂ ≡ ((a, c'), s₃)
      → succeeded (attached E B timeout c' h a s₃).0.outcome ≡ true
      → IsSuccess s₀ (attached E B timeout c' h a s₃).0 (attached E B timeout c' h a s₃).1
  unfolding attached not_attached succeeded
  attached-IsSuccess c c' h (ok _) s₀ s₁ s₂ s₃ configures spawns attaches good = record {
    configured_as = c;
    containment = c';
    child = h;
    contained = s₁;
    running = s₂;
    started = s₃;
    configures = configures;
    spawns = spawns;
    attaches = attaches;
    completed =
        observed-IsCompleted c' h (B.observe h timeout s₃).0 s₃ (B.observe h timeout s₃).1 refl
          good;
  }
  attached-IsSuccess c c' h (err x) s₀ s₁ s₂ s₃ configures spawns attaches good = absurd cc

  spawned-IsSuccess :
      (c : B.Containment) (child : Result B.Child) (s₀ s₁ s₂ : S)
      → B.configure s₀ ≡ (ok c, s₁)
      → B.spawn s₁ ≡ (child, s₂)
      → succeeded (spawned E B timeout c child s₂).0.outcome ≡ true
      → IsSuccess s₀ (spawned E B timeout c child s₂).0 (spawned E B timeout c child s₂).1
  unfolding spawned succeeded
  spawned-IsSuccess c (ok h) s₀ s₁ s₂ configures spawns good =
      let ((a, c'), s₃) = B.attach c h s₂ in
      attached-IsSuccess c c' h a s₀ s₁ s₂ s₃ configures spawns refl good
  spawned-IsSuccess c (err x) s₀ s₁ s₂ configures spawns good = absurd cc

  configured-IsSuccess :
      (c : Result B.Containment) (s₀ s₁ : S)
      → B.configure s₀ ≡ (c, s₁)
      → succeeded (configured E B timeout c s₁).0.outcome ≡ true
      → IsSuccess s₀ (configured E B timeout c s₁).0 (configured E B timeout c s₁).1
  unfolding configured succeeded
  configured-IsSuccess (ok c) s₀ s₁ configures good =
      spawned-IsSuccess c (B.spawn s₁).0 s₀ s₁ (B.spawn s₁).1 configures refl good
  configured-IsSuccess (err x) s₀ s₁ configures good = absurd cc

  pub execute_with-IsSuccess :
      (s : S)
      → succeeded (execute_with E B timeout s).0.outcome ≡ true
      → IsSuccess s (execute_with E B timeout s).0 (execute_with E B timeout s).1
  unfolding execute_with
  execute_with-IsSuccess s = configured-IsSuccess (B.configure s).0 s (B.configure s).1 refl
