-- ===== src/Process/Execute/Lifecycle.antt =====
-- The life of a child as steps of the backend: `ProcessBackend` of tools/fs2-dev/src/process.rs.
pub mod Exact
use fs2_turbo.Base.{
  ℕ, zero, suc, ◌+◌, ◌≤◌, Option, none, some, ◌≡◌, refl, Error, Result, ok, err, arith,
}
use fs2_turbo.Process.{OsErrors, display, ExitStatus, ProcessOutcome, Execution, ChildObservation}
use fs2_turbo.Process.Execute.{
  ProcessBackend, CleanupReport, failed, not_attached, not_observed, expired, finished,
}

-- Why a child has to be killed.
pub data Reason : Type 0 where
  unattached : Error → Reason
  unobserved : Error → Reason
  overdue : Reason

unfoldable pub conclusion : OsErrors → ℕ → Reason → CleanupReport → Execution
conclusion E timeout (unattached error) report = not_attached E error report
conclusion E timeout (unobserved error) report = not_observed E error report
conclusion E timeout overdue report = expired timeout report

module _ {S : Type 0} (E : OsErrors) (B : ProcessBackend S) (timeout : ℕ) where
  pub data Phase : Type 0 where
    idle : Phase
    contained : B.Containment → Phase
    running : B.Containment → B.Child → Phase
    attached : B.Containment → B.Child → Phase
    exited : B.Containment → B.Child → Option ExitStatus → Phase
    condemned : B.Containment → B.Child → Reason → Phase
    over : Execution → Phase

  pub data Step : Phase × S → Phase × S → Type 0 where
    configure_fails :
        {e : Error} {s s' : S}
        → B.configure s ≡ (err e, s')
        → Step (idle, s) (over (failed (ProcessOutcome.containment_failed (display E e))), s')
    configures :
        {c : B.Containment} {s s' : S}
        → B.configure s ≡ (ok c, s')
        → Step (idle, s) (contained c, s')
    spawn_fails :
        {c : B.Containment} {e : Error} {s s' : S}
        → B.spawn s ≡ (err e, s')
        → Step (contained c, s) (over (failed (ProcessOutcome.spawn_failed (display E e))), s')
    spawns :
        {c : B.Containment} {h : B.Child} {s s' : S}
        → B.spawn s ≡ (ok h, s')
        → Step (contained c, s) (running c h, s')
    attach_fails :
        {c c' : B.Containment} {h : B.Child} {e : Error} {s s' : S}
        → B.attach c h s ≡ ((err e, c'), s')
        → Step (running c h, s) (condemned c' h (unattached e), s')
    attaches :
        {c c' : B.Containment} {h : B.Child} {s s' : S}
        → B.attach c h s ≡ ((ok tt, c'), s')
        → Step (running c h, s) (attached c' h, s')
    exits :
        {c : B.Containment} {h : B.Child} {status : Option ExitStatus} {s s' : S}
        → B.observe h timeout s ≡ (ok (ChildObservation.child_exited status), s')
        → Step (attached c h, s) (exited c h status, s')
    runs_on :
        {c : B.Containment} {h : B.Child} {s s' : S}
        → B.observe h timeout s ≡ (ok ChildObservation.still_running, s')
        → Step (attached c h, s) (condemned c h overdue, s')
    observe_fails :
        {c : B.Containment} {h : B.Child} {e : Error} {s s' : S}
        → B.observe h timeout s ≡ (err e, s')
        → Step (attached c h, s) (condemned c h (unobserved e), s')
    completes :
        {c : B.Containment} {h : B.Child} {status : Option ExitStatus} {r : CleanupReport}
        {s s' : S}
        → B.complete c h status s ≡ (r, s')
        → Step (exited c h status, s) (over (finished r), s')
    cleans_up :
        {c : B.Containment} {h : B.Child} {why : Reason} {r : CleanupReport} {s s' : S}
        → B.cleanup c h s ≡ (r, s')
        → Step (condemned c h why, s) (over (conclusion E timeout why r), s')

  infixr 5 ◌then◌
  pub data Steps : Phase × S → Phase × S → Type 0 where
    stay : {p : Phase × S} → Steps p p
    ◌then◌ : {p q r : Phase × S} → Step p q → Steps q r → Steps p r
