-- ===== src/Process.antt =====
-- The supervision of child processes by the developer tool: tools/fs2-dev/src/process.rs. This file
-- holds the outcomes of an execution and how an exit status is turned into one.
pub mod Timeout
pub mod Execute
pub mod Poll
pub mod Reap
pub mod Capture
pub mod Security
use fs2_turbo.Base.{
  ℕ, String, ◌/◌, ◌*◌, ◌==◌, if◌then◌else◌, Bool, true, false, Option, none, some, ℤ, pos, List, [],
  ◌∷◌, ErrorKind, Error, ◌≡◌, refl,
}
use Prim.Native.String
use Prim.Native.String.{◌++◌}
use fs2_turbo.Base.Text.{concat, decimal, decimal_ℤ}

-- The standard library's words for an operating-system error, and the kind it files it under.
pub record OsErrors : Type 0 where
  pub os_text : ℤ → String
  pub os_kind : ℤ → ErrorKind

-- `Display` of `std::io::Error`, and `Error::kind`.
unfoldable pub display : OsErrors → Error → String
display E (Error.os c) = E.os_text c
display E (Error.custom k m) = m
display E (Error.wrapped k m e) = m ++ display E e
display E Error.fault = ""

unfoldable pub kind : OsErrors → Error → ErrorKind
kind E (Error.os c) = E.os_kind c
kind E (Error.custom k m) = k
kind E (Error.wrapped k m e) = k
kind E Error.fault = ErrorKind.other

-- A `Duration` is a number of nanoseconds.
abbrev pub as_millis : ℕ → ℕ
as_millis t = t / 1000000

abbrev pub from_secs : ℕ → ℕ
from_secs n = n * 1000000000

-- What `ExitStatusExt` of Unix answers beside the code.
pub record UnixStatus : Type 0 where
  pub signal : Option ℤ
  pub core_dumped : Bool

-- What `ExitStatus` answers; the second part is there on Unix only.
pub record ExitStatus : Type 0 where
  pub code : Option ℤ
  pub unix : Option UnixStatus

pub data ProcessOutcome : Type 0 where
  exited : ℤ → ProcessOutcome
  terminated : String → ProcessOutcome
  timed_out : ℕ → Bool → Option String → ProcessOutcome
  spawn_failed : String → ProcessOutcome
  containment_failed : String → ProcessOutcome
  runner_failed : String → ProcessOutcome

pub record Execution : Type 0 where
  pub outcome : ProcessOutcome
  pub status : Option ExitStatus

pub data ChildObservation : Type 0 where
  child_exited : Option ExitStatus → ChildObservation
  still_running : ChildObservation

unfoldable pub succeeded : ProcessOutcome → Bool
succeeded (ProcessOutcome.exited (pos n)) = n == 0
succeeded (ProcessOutcome.exited (ℤ.negsuc n)) = false
succeeded (ProcessOutcome.terminated detail) = false
succeeded (ProcessOutcome.timed_out timeout_ms reaped kill_error) = false
succeeded (ProcessOutcome.spawn_failed error) = false
succeeded (ProcessOutcome.containment_failed error) = false
succeeded (ProcessOutcome.runner_failed error) = false

abbrev bool_text : Bool → String
bool_text true = "true"
bool_text false = "false"

unfoldable pub description : ProcessOutcome → String
description (ProcessOutcome.exited code) = "native exit " ++ decimal_ℤ code
description (ProcessOutcome.terminated detail) = "process terminated: " ++ detail
description (ProcessOutcome.timed_out timeout_ms reaped (some error)) =
    concat ("process timed out after " ∷ decimal timeout_ms ∷ " ms; kill failed: " ∷ error ∷ [])
description (ProcessOutcome.timed_out timeout_ms reaped none) =
    concat
      ("process timed out after " ∷ decimal timeout_ms ∷ " ms; reaped=" ∷ bool_text reaped ∷ [])
description (ProcessOutcome.spawn_failed error) = "process spawn failed: " ++ error
description (ProcessOutcome.containment_failed error) = "process containment failed: " ++ error
description (ProcessOutcome.runner_failed error) = "process runner failed: " ++ error

-- On Unix.
unfoldable pub termination_detail : UnixStatus → String
termination_detail status = elim status.signal [
  | some number ↦
      if status.core_dumped
      then concat ("signal " ∷ decimal_ℤ number ∷ " (core dumped)" ∷ [])
      else "signal " ++ decimal_ℤ number
  | none ↦ "no exit code or signal was reported"
]

-- The two forms of the detail.
unfoldable pub detail_of : Option UnixStatus → String
unfolding termination_detail
detail_of (some status) = termination_detail status
detail_of none = "no native exit code was reported"

unfoldable pub status_outcome_with_code : ExitStatus → Option ℤ → ProcessOutcome
unfolding detail_of
status_outcome_with_code status (some code) = ProcessOutcome.exited code
status_outcome_with_code status none = ProcessOutcome.terminated (detail_of status.unix)

unfoldable pub status_outcome : ExitStatus → ProcessOutcome
unfolding status_outcome_with_code
status_outcome status = status_outcome_with_code status status.code

unfoldable pub finished_execution : Option ExitStatus → Option String → Execution
unfolding status_outcome description
finished_execution none (some error) = record {
  outcome = ProcessOutcome.containment_failed error;
  status = none;
}
finished_execution none none = record {
  outcome =
      ProcessOutcome.containment_failed "direct child status was unavailable after observed exit";
  status = none;
}
finished_execution (some status) (some error) = record {
  outcome =
      ProcessOutcome.containment_failed
        (concat (description (status_outcome status) ∷ "; cleanup failed: " ∷ error ∷ []));
  status = some status;
}
finished_execution (some status) none = record {
  outcome = status_outcome status;
  status = some status;
}
