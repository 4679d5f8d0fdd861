-- ===== src/Process/Execute.antt =====
-- One execution of a command: `ProcessBackend` and `execute_with` of tools/fs2-dev/src/process.rs.
pub mod Lifecycle
pub mod Success
pub mod Released
use fs2_turbo.Base.{
  ℕ, String, Bool, true, false, List, [], ◌∷◌, Option, none, some, ◌≡◌, refl, Error, Result, ok,
  err, Io.Io,
}
use fs2_turbo.Base.Text.{concat}
use fs2_turbo.Process.{
  OsErrors, display, as_millis, ExitStatus, ProcessOutcome, Execution, ChildObservation,
  finished_execution,
}

-- The status of the child, if it was reaped, and what went wrong.
abbrev pub CleanupReport : Type 0
CleanupReport = Option ExitStatus × Option String

-- The trait; `S` is the state of the system, with the command and the child, which is a handle.
pub record ProcessBackend (S : Type 0) : Type 1 where
  pub Containment : Type 0
  pub Child : Type 0
  pub configure : Io S Containment
  pub spawn : Io S Child
  pub attach : Containment → Child → S → (Result (Unit {0}) × Containment) × S
  pub observe : Child → ℕ → Io S ChildObservation
  pub complete : Containment → Child → Option ExitStatus → S → CleanupReport × S
  pub cleanup : Containment → Child → S → CleanupReport × S

-- The text of an error with that of the cleanup behind it.
unfoldable pub with_cleanup : OsErrors → Error → Option String → String
unfolding display
with_cleanup E error (some cleanup) = concat (display E error ∷ "; cleanup failed: " ∷ cleanup ∷ [])
with_cleanup E error none = display E error

abbrev pub is_some : {A : Type 0} → Option A → Bool
is_some (some a) = true
is_some none = false

abbrev pub failed : ProcessOutcome → Execution
failed outcome = record { outcome = outcome; status = none }

-- What follows the cleanup when the child could not be attached, observed, or did not exit in time.
unfoldable pub not_attached : OsErrors → Error → CleanupReport → Execution
unfolding with_cleanup
not_attached E error (status, cleanup_error) = record {
  outcome = ProcessOutcome.containment_failed (with_cleanup E error cleanup_error);
  status = status;
}

unfoldable pub not_observed : OsErrors → Error → CleanupReport → Execution
unfolding with_cleanup
not_observed E error (status, cleanup_error) = record {
  outcome = ProcessOutcome.runner_failed (with_cleanup E error cleanup_error);
  status = status;
}

unfoldable pub expired : ℕ → CleanupReport → Execution
expired timeout (status, kill_error) = record {
  outcome = ProcessOutcome.timed_out (as_millis timeout) (is_some status) kill_error;
  status = status;
}

unfoldable pub finished : CleanupReport → Execution
unfolding finished_execution
finished (status, cleanup_error) = finished_execution status cleanup_error

module _ {S : Type 0} (E : OsErrors) (B : ProcessBackend S) (timeout : ℕ) where
  unfoldable pub observed : B.Containment → B.Child → Result ChildObservation → S → Execution × S
  unfolding finished expired not_observed
  observed containment child (ok (ChildObservation.child_exited observed_status)) s =
      let (report, s') = B.complete containment child observed_status s in (finished report, s')
  observed containment child (ok ChildObservation.still_running) s =
      let (report, s') = B.cleanup containment child s in (expired timeout report, s')
  observed containment child (err error) s =
      let (report, s') = B.cleanup containment child s in (not_observed E error report, s')

  unfoldable pub attached : B.Containment → B.Child → Result (Unit {0}) → S → Execution × S
  unfolding observed not_attached
  attached containment child (ok _) s =
      let (observation, s') = B.observe child timeout s in observed containment child observation s'
  attached containment child (err error) s =
      let (report, s') = B.cleanup containment child s in (not_attached E error report, s')

  unfoldable pub spawned : B.Containment → Result B.Child → S → Execution × S
  unfolding display attached
  spawned containment (ok child) s =
      let ((result, containment'), s') = B.attach containment child s in
      attached containment' child result s'
  spawned containment (err error) s = (failed (ProcessOutcome.spawn_failed (display E error)), s)

  unfoldable pub configured : Result B.Containment → S → Execution × S
  unfolding display spawned
  configured (ok containment) s = let (child, s') = B.spawn s in spawned containment child s'
  configured (err error) s = (failed (ProcessOutcome.containment_failed (display E error)), s)

  unfoldable pub execute_with : S → Execution × S
  unfolding configured
  execute_with s = let (containment, s') = B.configure s in configured containment s'
