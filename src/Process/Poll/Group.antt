-- ===== src/Process/Poll/Group.antt =====
-- The loop that waits until the last process of a group is gone, and the one that waits for the child:
-- `wait_for_process_group_exit_with` and `waitid_observe_child_exit` of tools/fs2-dev/src/process.rs.
pub mod Laws
use fs2_turbo.Base.{
  ℕ, String, ◌%◌, ◌^◌, ltb, if◌then◌else◌, ℤ, pos, eqb_ℤ, List, [], ◌∷◌, Option, none, some,
  ErrorKind, Error, os, custom, wrapped, raw_os_error, Result, ok, err,
}
use fs2_turbo.Base.Text.{concat, decimal, decimal_ℤ}
use fs2_turbo.Process.{OsErrors, kind, as_millis, ChildObservation}
use fs2_turbo.Process.Poll.{Look, settled, pending, Clock, poll}

-- `libc::EPERM` and `libc::ESRCH`.
abbrev pub eperm : ℤ
eperm = pos 1

abbrev pub esrch : ℤ
esrch = pos 3

-- `i32::try_from` of a process id.
unfoldable pub checked_process_id : ℕ → Result ℤ
checked_process_id pid =
    if ltb pid (2 ^ 31)
    then ok (pos pid)
    else err (custom ErrorKind.invalid_data "child process id is too large")

unfoldable pub cannot_query : OsErrors → ℤ → Error → Error
unfolding kind
cannot_query E process_group error =
    wrapped (kind E error)
      (concat ("unable to query process group " ∷ decimal_ℤ process_group ∷ ": " ∷ [])) error

unfoldable pub cannot_verify : ℤ → Error → Error
cannot_verify process_group error =
    wrapped ErrorKind.permission_denied
      (concat ("cannot verify that process group " ∷ decimal_ℤ process_group ∷ " exited: " ∷ []))
      error

unfoldable pub still_exists : ℤ → ℕ → Error
still_exists process_group timeout = custom ErrorKind.timed_out (
    concat (
      "process group "
      ∷ decimal_ℤ process_group
      ∷ " still exists after "
      ∷ decimal (as_millis timeout)
      ∷ " ms"
      ∷ []))

-- What the answer of a probe means.
unfoldable pub group_look : OsErrors → ℤ → ℕ → Result (Unit {0}) → Look (Result (Unit {0}))
unfolding cannot_query cannot_verify still_exists
group_look E process_group timeout (ok _) = pending (err (still_exists process_group timeout))
group_look E process_group timeout (err error) = elim (raw_os_error error) [
  | none ↦ settled (err (cannot_query E process_group error))
  | some c ↦
      if eqb_ℤ c esrch
      then settled (ok tt)
      else if eqb_ℤ c eperm
      then pending (err (cannot_verify process_group error))
      else settled (err (cannot_query E process_group error))
]

-- `GroupWaitBackend`.
pub record GroupWaitBackend (S : Type 0) : Type 0 where
  pub probe_group : ℤ → S → Result (Unit {0}) × S
  pub clock : Clock S

-- `waitid` without reaping: its result, the process id it filled in, and `errno` of the failure.
pub record Waitid (S : Type 0) : Type 0 where
  pub waitid : ℤ → S → (ℤ × ℤ) × S
  pub errno : S → ℤ
  pub clock : Clock S

module _ {S : Type 0} where
  unfoldable pub probe : OsErrors → GroupWaitBackend S → ℤ → ℕ → S → Look (Result (Unit {0})) × S
  unfolding group_look
  probe E B process_group timeout s =
      let (answer, s') = B.probe_group process_group s in
      (group_look E process_group timeout answer, s')

  unfoldable pub wait_for_process_group_exit_with :
      OsErrors → GroupWaitBackend S → ℕ → ℤ → ℕ → S → Option (Result (Unit {0}) × S)
  unfolding poll probe
  wait_for_process_group_exit_with E B fuel process_group timeout =
      poll B.clock (probe E B process_group timeout) timeout fuel

  unfoldable pub observe_look : Waitid S → ℤ → S → Look (Result ChildObservation) × S
  observe_look W pid s =
      let ((result, si_pid), s') = W.waitid pid s in
      (
        if eqb_ℤ result (pos 0)
            then if eqb_ℤ si_pid (pos 0)
              then pending (ok ChildObservation.still_running)
              else settled (ok (ChildObservation.child_exited none))
            else settled (err (os (W.errno s'))),
        s',
      )

  unfoldable pub waitid_observe_child_exit :
      Waitid S → ℕ → ℕ → ℕ → S → Option (Result ChildObservation × S)
  unfolding poll observe_look checked_process_id
  waitid_observe_child_exit W fuel id timeout s = elim (checked_process_id id) [
    | ok pid ↦ poll W.clock (observe_look W pid) timeout fuel s
    | err e ↦ some (err e, s)
  ]
