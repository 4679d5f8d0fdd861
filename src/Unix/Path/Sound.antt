-- ===== src/Unix/Path/Sound.antt =====
-- Both ways to build the C string hand over the same bytes, and neither leaves the buffer.
use fs2_turbo.Base.{
  ℕ, ◌+◌, ◌≤◌, ◌<◌, ◌≡◌, refl, ◌++◌, List, [], ◌∷◌, some, none, ok, err, map, append_assoc, drop,
  length, length-append, length-drop, length-replicate, replicate, arith, if◌then◌else◌, Bool-cases,
  inl, inr, ◌==◌,
}
use fs2_turbo.Base.Buffer.{Buffer, contains_null, null_error, null_terminated}
use fs2_turbo.Base.Buffer.Laws.{write-append, terminate_copy}
use fs2_turbo.Base.Io.{Io}
use fs2_turbo.Unix.Path.{copy_bytes, stack_path, c_path, with_c_path, small_path_buffer_size}

-- The loop fills the cells behind `done`, or stops at a null.
copy_bytes-append :
    (i : ℕ) (bytes : List ℕ) (done rest : Buffer)
    → i ≡ length done
    → length bytes ≤ length rest
    → copy_bytes i bytes (done ++ rest) ≡ (
        if contains_null bytes
        then err null_error
        else ok (done ++ (map some bytes ++ drop (length bytes) rest)))
unfolding copy_bytes contains_null
copy_bytes-append i [] done rest e h = refl
copy_bytes-append i (b ∷ bytes) done [] e h = absurd (omega arith)
copy_bytes-append i (b ∷ bytes) done (cell ∷ rest) e h =
    let ih =
      copy_bytes-append (i + 1) bytes (done ++ some b ∷ []) rest
        (omega (arith, length-append done (some b ∷ []))) (omega arith) in
    rw (write-append i b done cell rest e) (elim (Bool-cases (b == 0)) [
      | inl null ↦ rw null
      | inr other ↦ rw other (simp append_assoc at ih)
    ])

stack_path-null_terminated :
    (capacity : ℕ) (bytes : List ℕ)
    → length bytes < capacity
    → stack_path capacity bytes ≡ null_terminated bytes
unfolding stack_path null_terminated
stack_path-null_terminated capacity bytes h =
    let cells : Buffer = replicate capacity none in
    let size : length cells ≡ capacity = length-replicate capacity none in
    let left : 0 < length (drop (length bytes) cells) =
      omega (arith, length-drop (length bytes) cells) in
    rw (copy_bytes-append 0 bytes [] cells refl (omega arith))
      (elim (Bool-cases (contains_null bytes)) [
        | inl null ↦ rw null
        | inr clean ↦ rw clean (terminate_copy bytes (drop (length bytes) cells) left)
      ])

-- Where the paths meet: below the buffer's size they agree, above it only one is taken.
pub c_path-null_terminated : (bytes : List ℕ) → c_path bytes ≡ null_terminated bytes
unfolding c_path
c_path-null_terminated bytes =
    ground (arith, stack_path-null_terminated small_path_buffer_size bytes)

-- `with_c_path` runs its query on exactly the path's bytes and one null, on the stack as on the
-- heap, and refuses a path with a null inside without running the query; no write or read leaves
-- the buffer or meets an uninitialised byte.
pub with_c_path_lem :
    {S A : Type 0} (bytes : List ℕ) (query : List ℕ → Io S A) (s : S)
    → with_c_path bytes query s
      ≡ (if contains_null bytes then (err null_error, s) else query (bytes ++ 0 ∷ []) s)
unfolding with_c_path
with_c_path_lem bytes query s =
    rw (c_path-null_terminated bytes) (unfold null_terminated in ground arith)
