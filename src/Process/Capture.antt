-- ===== src/Process/Capture.antt =====
-- The capture of a child's output: `capture_with_backend`, `capture_directory` and `captured_output` of
-- tools/fs2-dev/src/process.rs, off Windows.
pub mod Bounded
pub mod Done
pub mod Root
use fs2_turbo.Base.{
  ℕ, String, ltb, if◌then◌else◌, Bool, true, false, ◌==◌, List, [], ◌∷◌, map, Option, none, some,
  ErrorKind, Error, custom, Result, ok, err, length,
}
use fs2_turbo.Base.Io.{Io, lift, ◌>>=◌, ◌>>◌}
use Prim.Native.String.{◌++◌}
use Prim.Native.String
use Prim.Native.Char.{Char, code}
use text.Mathlib.Text.{starts_with}
use fs2_turbo.Base.Text.{concat, join, decimal}
use fs2_turbo.Process.{
  OsErrors, display, ExitStatus, ProcessOutcome, Execution, succeeded, description,
}

-- 16 MiB.
abbrev pub max_captured_stream_bytes : ℕ
max_captured_stream_bytes = 16777216

abbrev pub invalid_data : String → Error
invalid_data message = custom ErrorKind.invalid_data message

-- `std::process::Output`; a byte is a number below 256.
pub record Output : Type 0 where
  pub status : ExitStatus
  pub stdout : List ℕ
  pub stderr : List ℕ

-- `CaptureBackend`, with what the capture asks of the command and of the standard library. `D` is a
-- temporary directory and `F` a file.
pub record CaptureBackend (S D F : Type 0) : Type 0 where
  pub temporary : Io S D
  pub file : D → Io S F
  pub clone_file : F → Io S F
  pub rewind : F → Io S (Unit {0})
  pub read_to_end : F → Io S (List ℕ)
  pub metadata_len : F → Io S ℕ
  pub set_streams : F → F → S → S
  pub reset_streams : S → S
  pub timeout : Io S ℕ
  pub execute : ℕ → S → Execution × S

-- `String::from_utf8_lossy` with `trim`, and `char::escape_default` of the characters of a line.
pub record Rendering : Type 0 where
  pub lossy_trimmed : List ℕ → String
  pub escape_default : String → String

-- `split('\n')`, with the characters of the line that has begun.
unfoldable pub split_lines : String → String → List String
split_lines line String.[] = line ∷ []
split_lines line (String.◌∷◌ c s) =
    let rest = split_lines (line ++ String.◌∷◌ c String.[]) s in
    let fresh = split_lines "" s in if code c == b'\n' then line ∷ fresh else rest

-- A line that a workflow runner would read as a command is marked.
unfoldable pub render_line : Rendering → String → String
render_line T line =
    let rendered = T.escape_default line in
    if starts_with rendered "::" then "| " ++ rendered else rendered

unfoldable pub render_diagnostic_stream : Rendering → List ℕ → String
unfolding split_lines render_line join
render_diagnostic_stream T bytes =
    join "\n" (map (render_line T) (split_lines "" (T.lossy_trimmed bytes)))

unfoldable pub validate_capture_length : String → ℕ → ℕ → Result (Unit {0})
validate_capture_length stream length limit =
    if ltb limit length
    then err (
        invalid_data (
          concat (
            "captured "
            ∷ stream
            ∷ " exceeded the "
            ∷ decimal limit
            ∷ "-byte diagnostic limit"
            ∷ [])))
    else ok tt

unfoldable pub capture_file_stage {ℓ} : {A : Type ℓ} → OsErrors → Result A → String → Result A
unfolding display
capture_file_stage E (ok value) operation = ok value
capture_file_stage E (err error) operation =
    err (invalid_data (concat ("unable to " ∷ operation ∷ ": " ∷ display E error ∷ [])))

unfoldable pub captured_output : Rendering → Execution → String → List ℕ → List ℕ → Result Output
unfolding succeeded description render_diagnostic_stream
captured_output T execution label stdout stderr =
    if succeeded execution.outcome
    then elim execution.status [
      | none ↦ err (invalid_data "successful process has no exit status")
      | some status ↦ ok (record { status = status; stdout = stdout; stderr = stderr })
    ]
    else err (
        invalid_data (
          concat (
            label
            ∷ " failed: "
            ∷ description execution.outcome
            ∷ "\nstdout:\n"
            ∷ render_diagnostic_stream T stdout
            ∷ "\nstderr:\n"
            ∷ render_diagnostic_stream T stderr
            ∷ [])))

abbrev pub modify : {S : Type 0} → (S → S) → Io S (Unit {0})
modify f s = (ok tt, f s)

abbrev pub infallible : {S A : Type 0} → (S → A × S) → Io S A
infallible f s = let (a, s') = f s in (ok a, s')

module _ {S D F : Type 0} (E : OsErrors) (T : Rendering) (B : CaptureBackend S D F) where
  unfoldable pub validate_capture_file : F → String → ℕ → Io S (Unit {0})
  unfolding validate_capture_length
  validate_capture_file file stream limit = do
    length ← B.metadata_len file
    lift (validate_capture_length stream length limit)

  unfoldable pub capture_directory : Io S D
  capture_directory = B.temporary

  unfoldable pub capture_file : D → String → Io S F
  unfolding capture_file_stage
  capture_file directory operation s =
      let (file, s') = B.file directory s in (capture_file_stage E file operation, s')

  -- The closure of `capture_with_backend`, in three parts.
  unfoldable pub run_child : F → F → Io S Execution
  run_child stdout_file stderr_file = do
    stdout_capture ← B.clone_file stdout_file
    stderr_capture ← B.clone_file stderr_file
    modify (B.set_streams stdout_capture stderr_capture)
    timeout ← B.timeout
    infallible (B.execute timeout)

  unfoldable pub read_streams : F → F → String → Execution → Io S Output
  unfolding captured_output
  read_streams stdout_file stderr_file label execution = do
    B.rewind stdout_file
    B.rewind stderr_file
    stdout ← B.read_to_end stdout_file
    stderr ← B.read_to_end stderr_file
    lift (captured_output T execution label stdout stderr)

  unfoldable pub run_captured : F → F → String → Io S Output
  unfolding validate_capture_file run_child read_streams
  run_captured stdout_file stderr_file label = do
    execution ← run_child stdout_file stderr_file
    validate_capture_file stdout_file "stdout" max_captured_stream_bytes
    validate_capture_file stderr_file "stderr" max_captured_stream_bytes
    read_streams stdout_file stderr_file label execution

  -- The command gives up the files, whatever the result.
  abbrev pub release_streams : Io S Output → Io S Output
  release_streams run s = let (result, s') = run s in (result, B.reset_streams s')

  unfoldable pub capture_with_backend : String → Io S Output
  unfolding capture_directory capture_file run_captured
  capture_with_backend label = do
    directory ← capture_directory
    stdout_file ← capture_file directory "create secure stdout capture"
    stderr_file ← capture_file directory "create secure stderr capture"
    release_streams (run_captured stdout_file stderr_file label)
