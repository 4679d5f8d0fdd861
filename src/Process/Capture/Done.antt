-- ===== src/Process/Capture/Done.antt =====
-- What the child of a capture and the reading of its two files have done, step by step: the closure of
-- `capture_with_backend` in tools/fs2-dev/src/process.rs.
use fs2_turbo.Base.{
  ℕ, String, ◌≤◌, true, List, some, ◌≡◌, inl, inr, ap, ◌∙◌, refl, sym, ok, Bool-cases, Option-cases,
  arith,
}
use fs2_turbo.Base.Io.{Io, lift, ◌>>=◌, ◌>>◌}
use fs2_turbo.Base.Io.Chains.{bind-ok}
use fs2_turbo.Process.{OsErrors, Execution, succeeded}
use fs2_turbo.Process.Capture.{
  max_captured_stream_bytes, Output, CaptureBackend, Rendering, validate_capture_length,
  validate_capture_file, captured_output, run_child, read_streams, run_captured, modify, infallible,
}

validate_capture_length_bound :
    (stream : String) (n limit : ℕ) (u : Unit {0})
    → validate_capture_length stream n limit ≡ ok u
    → n ≤ limit
unfolding validate_capture_length
validate_capture_length_bound stream n limit u h = ground arith

captured_output-ok :
    (T : Rendering) (x : Execution) (label : String) (out error : List ℕ) (o : Output)
    → captured_output T x label out error ≡ ok o
    → (succeeded x.outcome ≡ true)
      × (x.status ≡ some o.status)
      × (o.stdout ≡ out)
      × (o.stderr ≡ error)
unfolding captured_output
captured_output-ok T x label out error o h = elim (Bool-cases (succeeded x.outcome)) [
  | inl good ↦ elim (Option-cases x.status) [
    | inl missing ↦ absurd (ground arith)
    | inr (status, e) ↦ (good, ground arith, ground arith, ground arith)
  ]
  | inr bad ↦ absurd (ground arith)
]

module _ {S D F : Type 0} (E : OsErrors) (T : Rendering) (B : CaptureBackend S D F) where
  validate_capture_file-ok :
      (file : F) (stream : String) (s s' : S) (u : Unit {0})
      → validate_capture_file E T B file stream max_captured_stream_bytes s ≡ (ok u, s')
      → (n : ℕ) × (B.metadata_len file s ≡ (ok n, s')) × n ≤ 16777216
  unfolding validate_capture_file
  validate_capture_file-ok file stream s s' u h =
      let (n, s₁, e, good) =
        bind-ok (B.metadata_len file)
          (λ n. lift (validate_capture_length stream n max_captured_stream_bytes)) s s' u h in
      (
        n,
        e ∙ ap (λ s. (ok n, s)) (ap (λ r. r.1) good),
        validate_capture_length_bound stream n max_captured_stream_bytes u (ap (λ r. r.0) good),
      )

  -- The child, which writes to clones of the files.
  pub record IsRun (started : S) (stdout_file stderr_file : F) (execution : Execution) (ended : S)
      : Type 0 where
    pub stdout_capture : F
    pub stderr_capture : F
    pub cloned : S
    pub before : S
    pub s₁ : S
    pub timeout : ℕ
    pub stdout_cloned : B.clone_file stdout_file started ≡ (ok stdout_capture, s₁)
    pub stderr_cloned : B.clone_file stderr_file s₁ ≡ (ok stderr_capture, cloned)
    pub timed :
        B.timeout (B.set_streams stdout_capture stderr_capture cloned) ≡ (ok timeout, before)
    pub executed : B.execute timeout before ≡ (execution, ended)

  -- The two files after it: their lengths, and then what is read from them.
  pub record IsRead (stdout_file stderr_file : F) (ended s' : S) (o : Output) : Type 0 where
    pub stdout_length : ℕ
    pub stderr_length : ℕ
    pub s₁ : S
    pub s₂ : S
    pub s₃ : S
    pub s₄ : S
    pub s₅ : S
    pub s₆ : S
    pub stdout_measured : B.metadata_len stdout_file ended ≡ (ok stdout_length, s₁)
    pub stdout_bound : stdout_length ≤ 16777216
    pub stderr_measured : B.metadata_len stderr_file s₁ ≡ (ok stderr_length, s₂)
    pub stderr_bound : stderr_length ≤ 16777216
    pub stdout_rewound : B.rewind stdout_file s₂ ≡ (ok tt, s₃)
    pub stderr_rewound : B.rewind stderr_file s₃ ≡ (ok tt, s₄)
    pub stdout_read : B.read_to_end stdout_file s₄ ≡ (ok o.stdout, s₅)
    pub stderr_read : B.read_to_end stderr_file s₅ ≡ (ok o.stderr, s₆)
    pub released : s' ≡ B.reset_streams s₆

  infallible-ok :
      (timeout : ℕ) (s s' : S) (x : Execution)
      → infallible (B.execute timeout) s ≡ (ok x, s')
      → B.execute timeout s ≡ (x, s')
  infallible-ok timeout s s' x h = cc

  run_child-IsRun :
      (out error : F) (s s' : S) (x : Execution)
      → run_child E T B out error s ≡ (ok x, s')
      → IsRun s out error x s'
  unfolding run_child
  run_child-IsRun out error s s' x h =
      let (a, s₁, a_cloned, h₁) =
        bind-ok (B.clone_file out)
          (λ a. B.clone_file error >>= λ b.
            modify (B.set_streams a b) >> (B.timeout >>= λ t. infallible (B.execute t)))
          s s' x h in
      let (b, s₂, b_cloned, h₂) =
        bind-ok (B.clone_file error)
          (λ b. modify (B.set_streams a b) >> (B.timeout >>= λ t. infallible (B.execute t))) s₁ s' x
          h₁ in
      let (timeout, s₃, timed, h₃) =
        bind-ok B.timeout (λ t. infallible (B.execute t)) (B.set_streams a b s₂) s' x h₂ in
      record {
        stdout_capture = a;
        stderr_capture = b;
        s₁ = s₁;
        cloned = s₂;
        before = s₃;
        timeout = timeout;
        stdout_cloned = a_cloned;
        stderr_cloned = b_cloned;
        timed = timed;
        executed = infallible-ok timeout s₃ s' x h₃;
      }

  -- The end of the reading, with the output that is made of it.
  read_streams-ok :
      (out error : F) (label : String) (x : Execution) (s s' : S) (o : Output)
      → read_streams E T B out error label x s ≡ (ok o, s')
      → (s₁ : S) × (s₂ : S) × (s₃ : S) × (B.rewind out s ≡ (ok tt, s₁))
        × (B.rewind error s₁ ≡ (ok tt, s₂))
        × (B.read_to_end out s₂ ≡ (ok o.stdout, s₃))
        × (B.read_to_end error s₃ ≡ (ok o.stderr, s'))
        × (succeeded x.outcome ≡ true)
        × (x.status ≡ some o.status)
  unfolding read_streams
  read_streams-ok out error label x s s' o h =
      let made : List ℕ → List ℕ → Io S Output = λ a b. lift (captured_output T x label a b) in
      let (u, s₁, out_rewound, h₁) =
        bind-ok (B.rewind out)
          (λ _.
            B.rewind error >> (B.read_to_end out >>= λ a. B.read_to_end error >>= λ b. made a b))
          s s' o h in
      let (v, s₂, error_rewound, h₂) =
        bind-ok (B.rewind error)
          (λ _. B.read_to_end out >>= λ a. B.read_to_end error >>= λ b. made a b) s₁ s' o h₁ in
      let (a, s₃, out_read, h₃) =
        bind-ok (B.read_to_end out) (λ a. B.read_to_end error >>= λ b. made a b) s₂ s' o h₂ in
      let (b, s₄, error_read, h₄) = bind-ok (B.read_to_end error) (made a) s₃ s' o h₃ in
      let (good, status, stdout, stderr) = captured_output-ok T x label a b o (ap (λ r. r.0) h₄) in
      (
        s₁,
        s₂,
        s₃,
        out_rewound,
        error_rewound,
        out_read ∙ ap (λ a. (ok a, s₃)) (sym stdout),
        error_read
            ∙ ap (λ b. (ok b, s₄)) (sym stderr)
            ∙ ap (λ s. (ok o.stderr, s)) (ap (λ r. r.1) h₄),
        good,
        status,
      )

  pub run_captured-ok :
      (out error : F) (label : String) (s s' : S) (o : Output)
      → run_captured E T B out error label s ≡ (ok o, s')
      → (x : Execution) × (ended : S) × IsRun s out error x ended
        × IsRead out error ended (B.reset_streams s') o
        × (succeeded x.outcome ≡ true)
        × (x.status ≡ some o.status)
  unfolding run_captured
  run_captured-ok out error label s s' o h =
      let (x, s₁, ran, h₁) =
        bind-ok (run_child E T B out error)
          (λ x.
            validate_capture_file E T B out "stdout" max_captured_stream_bytes
            >> (validate_capture_file E T B error "stderr" max_captured_stream_bytes
                >> read_streams E T B out error label x))
          s s' o h in
      let (u, s₂, first, h₂) =
        bind-ok (validate_capture_file E T B out "stdout" max_captured_stream_bytes)
          (λ _.
            validate_capture_file E T B error "stderr" max_captured_stream_bytes
            >> read_streams E T B out error label x)
          s₁ s' o h₁ in
      let (v, s₃, second, h₃) =
        bind-ok (validate_capture_file E T B error "stderr" max_captured_stream_bytes)
          (λ _. read_streams E T B out error label x) s₂ s' o h₂ in
      let (n, n_measured, n_bound) = validate_capture_file-ok out "stdout" s₁ s₂ u first in
      let (m, m_measured, m_bound) = validate_capture_file-ok error "stderr" s₂ s₃ v second in
      let (s₄, s₅, s₆, out_rewound, error_rewound, out_read, error_read, good, status) =
        read_streams-ok out error label x s₃ s' o h₃ in
      (
        x,
        s₁,
        run_child-IsRun out error s s₁ x ran,
        record {
          stdout_length = n;
          stderr_length = m;
          s₁ = s₂;
          s₂ = s₃;
          s₃ = s₄;
          s₄ = s₅;
          s₅ = s₆;
          s₆ = s';
          stdout_measured = n_measured;
          stdout_bound = n_bound;
          stderr_measured = m_measured;
          stderr_bound = m_bound;
          stdout_rewound = out_rewound;
          stderr_rewound = error_rewound;
          stdout_read = out_read;
          stderr_read = error_read;
          released = refl;
        },
        good,
        status,
      )
