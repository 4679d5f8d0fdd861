-- ===== src/Unix/Path.antt =====
-- A path as a C string, in a buffer on the stack where it is short: src/unix/path.rs.
pub mod Sound
use fs2_turbo.Base.{
  ℕ, ◌+◌, ◌==◌, leb, Option, none, List, [], ◌∷◌, Result, ok, err, ◌>>=◌, length, replicate,
  if◌then◌else◌,
}
use fs2_turbo.Base.Buffer.{Buffer, write, from_raw_parts, null_error, null_terminated}
use fs2_turbo.Base.Io
use fs2_turbo.Base.Io.{Io}

abbrev pub small_path_buffer_size : ℕ
small_path_buffer_size = 3584

-- The loop over `bytes.iter().copied().enumerate()`.
unfoldable pub copy_bytes : ℕ → List ℕ → Buffer → Result Buffer
unfolding write
copy_bytes i [] buffer = ok buffer
copy_bytes i (b ∷ bytes) buffer =
    let rest = write i b buffer >>= λ buffer'. copy_bytes (i + 1) bytes buffer' in
    if b == 0 then err null_error else rest

-- The copy on the stack, for a buffer of any size: the loop, the terminator, and the slice.
unfoldable pub stack_path : ℕ → List ℕ → Result (List ℕ)
stack_path capacity bytes = do
  buffer ← copy_bytes 0 bytes (replicate capacity none)
  terminated ← write (length bytes) 0 buffer
  from_raw_parts (length bytes + 1) terminated

-- The bytes that `query` is handed, with their terminator.
unfoldable pub c_path : List ℕ → Result (List ℕ)
c_path bytes =
    if leb small_path_buffer_size (length bytes)
    then null_terminated bytes
    else stack_path small_path_buffer_size bytes

unfoldable pub with_c_path {ℓ} : {S : Type 0} {A : Type ℓ} → List ℕ → (List ℕ → Io S A) → Io S A
unfolding c_path
with_c_path bytes query = Io.◌>>=◌ (Io.lift (c_path bytes)) query
