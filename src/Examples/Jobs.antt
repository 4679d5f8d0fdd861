-- ===== src/Examples/Jobs.antt =====
-- A Windows system with one child, on which the theorem on Job objects is applied.
use fs2_turbo.Base.{ℕ, suc, true, pos, [], none, some, ◌≡◌, refl, ErrorKind, ok}
use fs2_turbo.Process.{OsErrors, ExitStatus, succeeded, from_secs}
use fs2_turbo.Process.Execute.{execute_with}
use fs2_turbo.Process.Security.{NativeCall}
use fs2_turbo.Process.Reap.Job.{JobSystem, native_process_backend}
use fs2_turbo.Process.Reap.Job.Signalled.{IsSignalled, execute_with-IsSignalled}

-- A state counts the calls. The native calls answer 1, and the waits say that it is over.
abbrev no_errors : OsErrors
no_errors = record { os_text = λ c. "failed"; os_kind = λ c. ErrorKind.other }

abbrev answers {ℓ} : {A : Type ℓ} → A → NativeCall A
answers value = record { result = pos 1; last_os_error = pos 0; value = value }

abbrev exited : ExitStatus
exited = record { code = some (pos 0); unix = none }

abbrev job_of_one : JobSystem ℕ ℕ
job_of_one = record {
  create_suspended = suc;
  spawn = λ s. (ok 42, suc s);
  id = λ child. child;
  kill_child = λ child s. (ok tt, suc s);
  wait_timeout = λ child timeout s. (ok (some exited), suc s);
  create_job = λ s. (answers 7, suc s);
  limit_job = λ job s. (answers tt, suc s);
  assign_process = λ job child s. (answers tt, suc s);
  terminate_job = λ job s. (answers tt, suc s);
  wait_for_single_object = λ job timeout s. ((0, pos 0), suc s);
  create_snapshot = λ s. (answers 8, suc s);
  thread_first =
      λ snapshot s. (answers (record { thread_id = 9; owner_process_id = 42 }, []), suc s);
  open_thread = λ thread s. (answers 10, suc s);
  resume_thread = λ thread s. ((0, pos 0), suc s);
  close_handle = λ handle s. suc s;
}

job_succeeds :
    succeeded
      (execute_with no_errors
        (native_process_backend no_errors job_of_one)
        (from_secs 60)
        0).0.outcome
    ≡ true
unfolding execute_with native_process_backend succeeded
job_succeeds = refl

execute_with-IsSignalled_example :
    (status : ExitStatus) × ((execute_with no_errors
        (native_process_backend no_errors job_of_one)
        (from_secs 60)
        0).0.status
      ≡ some status)
    × (status.code ≡ some (pos 0))
    × IsSignalled no_errors job_of_one 0
        (execute_with no_errors (native_process_backend no_errors job_of_one) (from_secs 60) 0).1
execute_with-IsSignalled_example =
    execute_with-IsSignalled no_errors job_of_one (from_secs 60) 0 job_succeeds
