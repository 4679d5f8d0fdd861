-- ===== src/Process/Reap.antt =====
-- The end of a child and of its process group: `terminate_and_reap`, `reap_terminated_child`,
-- `complete_observed_exit` and `cleanup_report` of tools/fs2-dev/src/process.rs, and the containment
-- of tools/fs2-dev/src/process/containment.rs.
pub mod Reported
pub mod Unix
pub mod Job
use fs2_turbo.Base.{
  ℕ, zero, String, ◌==◌, eqb_ℤ, if◌then◌else◌, Bool, ℤ, pos, List, [], ◌∷◌, ◌++◌, Option, none,
  some, ErrorKind, Error, os, custom, raw_os_error, Result, ok, err, Io.Io,
}
use fs2_turbo.Base.Text.{concat, join, decimal}
use fs2_turbo.Process.{OsErrors, display, ExitStatus, as_millis, from_secs}
use fs2_turbo.Process.Execute.{CleanupReport}
use fs2_turbo.Process.Poll.Group.{
  checked_process_id, GroupWaitBackend, wait_for_process_group_exit_with, esrch,
}

-- 5 s.
abbrev pub termination_reap_timeout : ℕ
termination_reap_timeout = from_secs 5

-- `errors.push(format!("{what}: {error}"))` when the result is an error.
unfoldable pub push_error {ℓ} :
    {A : Type ℓ} → OsErrors → String → Result A → List String → List String
unfolding display
push_error E what (ok _) errors = errors
push_error E what (err error) errors = errors ++ concat (what ∷ display E error ∷ []) ∷ []

-- `Result::ok` of a status, and `Result::err`.
abbrev pub ok_status : Result ExitStatus → Option ExitStatus
ok_status (ok status) = some status
ok_status (err e) = none

abbrev pub error_of : Result (Unit {0}) → Option Error
error_of (ok _) = none
error_of (err e) = some e

unfoldable pub joined : List String → Option String
unfolding join
joined [] = none
joined (error ∷ errors) = some (join "; " (error ∷ errors))

unfoldable pub cleanup_report :
    OsErrors → Option ExitStatus → List String → Result (Unit {0}) → String → CleanupReport
unfolding push_error joined
cleanup_report E status errors verification scope = (
  status,
  joined
      (push_error E (concat (scope ∷ " cleanup could not be verified: " ∷ [])) verification errors),
)

module _ {S : Type 0} (E : OsErrors) (terminate kill : Io S (Unit {0}))
    (wait : Io S (Option ExitStatus)) where
  -- The child is killed by itself when its containment cannot be terminated.
  unfoldable pub kill_unless : Result (Unit {0}) → S → List String × S
  unfolding push_error display
  kill_unless (ok _) s = ([], s)
  kill_unless (err error) s =
      let (killed, s') = kill s in
      (
        push_error E "direct child termination failed: " killed
            (concat ("containment termination failed: " ∷ display E error ∷ []) ∷ []),
        s',
      )

  unfoldable pub last_wait :
      Result (Option ExitStatus) → List String → Option ExitStatus × List String
  unfolding display
  last_wait (ok (some status)) errors = (some status, errors)
  last_wait (ok none) errors =
      (none, errors ++ "process did not exit within the termination grace period" ∷ [])
  last_wait (err error) errors =
      (none, errors ++ concat ("unable to reap terminated process: " ∷ display E error ∷ []) ∷ [])

  unfoldable pub first_wait :
      Result (Option ExitStatus) → List String → S → (Option ExitStatus × List String) × S
  unfolding push_error display last_wait
  first_wait (ok (some status)) errors s = ((some status, errors), s)
  first_wait (ok none) errors s =
      let (killed, s₁) = kill s in
      let (waited, s₂) = wait s₁ in
      (last_wait waited (push_error E "direct child termination failed: " killed errors), s₂)
  first_wait (err error) errors s = (
    (none, errors ++ concat ("unable to reap terminated process: " ∷ display E error ∷ []) ∷ []),
    s,
  )

  unfoldable pub reap_terminated_child : S → (Option ExitStatus × List String) × S
  unfolding kill_unless first_wait
  reap_terminated_child s =
      let (terminated, s₁) = terminate s in
      let (errors, s₂) = kill_unless terminated s₁ in
      let (waited, s₃) = wait s₂ in first_wait waited errors s₃

-- The errors of a child that has exited, whose group is then terminated.
unfoldable pub unix_group_errors :
    OsErrors → Result ExitStatus → Option Error → Result (Unit {0}) → List String
unfolding push_error display
unix_group_errors E status termination_error verification =
    let reaped = push_error E "unable to reap observed direct child: " status [] in
    elim verification [
      | ok _ ↦ reaped
      | err _ ↦ elim termination_error [
        | none ↦ reaped
        | some error ↦
            reaped ++ concat ("containment termination failed: " ∷ display E error ∷ []) ∷ []
      ]
    ]

unfoldable pub completed_unix_group :
    OsErrors → Result ExitStatus → Option Error → Result (Unit {0}) → CleanupReport
unfolding cleanup_report unix_group_errors
completed_unix_group E status termination_error verification =
    cleanup_report E (ok_status status) (unix_group_errors E status termination_error verification)
      verification "process-group"

unfoldable pub completed_windows_job :
    OsErrors → Option ExitStatus → Option Error → Result (Unit {0}) → CleanupReport
unfolding display
completed_windows_job E observed_status termination_error (ok _) = (observed_status, none)
completed_windows_job E observed_status (some error) (err wait_error) = (
  observed_status,
  some (
      concat (
        "containment termination failed: "
        ∷ display E error
        ∷ "; Windows Job cleanup could not be verified: "
        ∷ display E wait_error
        ∷ [])),
)
completed_windows_job E observed_status none (err wait_error) = (
  observed_status,
  some (concat ("Windows Job cleanup could not be verified: " ∷ display E wait_error ∷ [])),
)
