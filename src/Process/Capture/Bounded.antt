-- ===== src/Process/Capture/Bounded.antt =====
-- What a capture that succeeds has returned, and what it leaves behind: `capture_with_backend` of
-- tools/fs2-dev/src/process.rs.
use fs2_turbo.Base.{String, true, some, ◌≡◌, ap, Result, ok, err}
use mathlib.Core.Path.{subst}
use fs2_turbo.Base.Io.{Io, ◌>>=◌}
use fs2_turbo.Base.Io.Chains.{bind-ok}
use fs2_turbo.Process.{OsErrors, Execution, succeeded}
use fs2_turbo.Process.Capture.{
  Output, CaptureBackend, Rendering, capture_directory, capture_file, run_captured,
  capture_with_backend, capture_file_stage, release_streams,
}
use fs2_turbo.Process.Capture.Done.{IsRun, IsRead, run_captured-ok}

module _ {S D F : Type 0} (E : OsErrors) (T : Rendering) (B : CaptureBackend S D F) where
  -- What a capture that succeeds has done, in order: the two files were made in the directory, the
  -- child was given clones of them and ended in success, each of the two files was measured and found
  -- within the limit, and what was then read from them is the output. At the end the command gives up
  -- the files.
  pub record IsCaptured (started s' : S) (o : Output) : Type 0 where
    pub directory : D
    pub stdout_file : F
    pub stderr_file : F
    pub s₁ : S
    pub s₂ : S
    pub s₃ : S
    pub directory_made : B.temporary started ≡ (ok directory, s₁)
    pub stdout_made : B.file directory s₁ ≡ (ok stdout_file, s₂)
    pub stderr_made : B.file directory s₂ ≡ (ok stderr_file, s₃)
    pub execution : Execution
    pub ended : S
    pub ran : IsRun E T B s₃ stdout_file stderr_file execution ended
    pub read : IsRead E T B stdout_file stderr_file ended s' o
    pub success : succeeded execution.outcome ≡ true
    pub reported : execution.status ≡ some o.status

  capture_file_stage-ok :
      (r : Result F) (operation : String) (file : F)
      → capture_file_stage E r operation ≡ ok file
      → r ≡ ok file
  unfolding capture_file_stage
  capture_file_stage-ok (ok x) operation file h = h
  capture_file_stage-ok (err x) operation file h = absurd cc

  capture_file-ok :
      (directory : D) (operation : String) (s s' : S) (file : F)
      → capture_file E T B directory operation s ≡ (ok file, s')
      → B.file directory s ≡ (ok file, s')
  unfolding capture_file
  capture_file-ok directory operation s s' file h =
      let made = capture_file_stage-ok (B.file directory s).0 operation file (ap (λ r. r.0) h) in
      let moved = ap (λ r. r.1) h in cc

  -- When a capture succeeds, two files were made in its directory, the child was given clones of
  -- them and ended in success with the output's status, first the one and then the other file was
  -- measured after it and found to be at most 16 MiB, the output is what was then read from the
  -- two, and the command has given up the files at the end.
  pub capture_with_backend-IsCaptured :
      (label : String) (s s' : S) (o : Output)
      → capture_with_backend E T B label s ≡ (ok o, s')
      → IsCaptured s s' o
  unfolding capture_with_backend capture_directory
  capture_with_backend-IsCaptured label s s' o h =
      let captured : F → F → Io S Output =
        λ out error. release_streams E T B (run_captured E T B out error label) in
      let (directory, s₁, made, h₁) =
        bind-ok B.temporary
          (λ d. capture_file E T B d "create secure stdout capture" >>= λ out.
            capture_file E T B d "create secure stderr capture" >>= λ error. captured out error)
          s s' o h in
      let (out, s₂, out_made, h₂) =
        bind-ok (capture_file E T B directory "create secure stdout capture")
          (λ out. capture_file E T B directory "create secure stderr capture" >>= λ error.
            captured out error)
          s₁ s' o h₁ in
      let (error, s₃, error_made, h₃) =
        bind-ok (capture_file E T B directory "create secure stderr capture") (captured out) s₂ s' o
          h₂ in
      let (result, ended) = run_captured E T B out error label s₃ in
      let (x, run_end, ran, read, good, status) =
        run_captured-ok E T B out error label s₃ ended o (ap (λ r. (r.0, ended)) h₃) in
      record {
        directory = directory;
        stdout_file = out;
        stderr_file = error;
        s₁ = s₁;
        s₂ = s₂;
        s₃ = s₃;
        directory_made = made;
        stdout_made = capture_file-ok directory "create secure stdout capture" s₁ s₂ out out_made;
        stderr_made =
            capture_file-ok directory "create secure stderr capture" s₂ s₃ error error_made;
        execution = x;
        ended = run_end;
        ran = ran;
        read = subst (λ t. IsRead E T B out error run_end t o) (ap (λ r. r.1) h₃) read;
        success = good;
        reported = status;
      }
