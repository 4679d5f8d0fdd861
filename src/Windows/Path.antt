-- ===== src/Windows/Path.antt =====
-- Wide paths and drive roots: src/windows/path.rs. A path is its UTF-16 code units, and a root path
-- is an array of 261 units.
pub mod Wide
pub mod Root
use fs2_turbo.Base.{
  ℕ, ℤ, pos, suc, ◌+◌, ◌==◌, leb, eqb_ℤ, Bool, true, false, ◌&&◌, ◌||◌, os, Option, some, none,
  List, [], ◌∷◌, ◌++◌, Result, ok, err, ◌>>=◌, length, replicate, drop, if◌then◌else◌,
}
use fs2_turbo.Base.Buffer.{Buffer, write, from_raw_parts, null_error}
use fs2_turbo.Base.Io
use fs2_turbo.Base.Io.{Io}

abbrev pub volume_path_capacity : ℕ
volume_path_capacity = 261

-- What a Windows call leaves behind: its result, and what `GetLastError` says after it.
pub record Call : Type 0 where
  pub result : ℤ
  pub last_error : ℤ

unfoldable pub win32_bool_result : Call → Result (Unit {0})
win32_bool_result call = if eqb_ℤ call.result (pos 0) then err (os call.last_error) else ok tt

-- The units that are left once the path has outgrown the array, and the terminator.
unfoldable pub push_rest : List ℕ → List ℕ → Result (List ℕ)
push_rest heap [] = ok (heap ++ 0 ∷ [])
push_rest heap (code_unit ∷ encoded) =
    let rest = push_rest (heap ++ code_unit ∷ []) encoded in
    if code_unit == 0 then err null_error else rest

-- The loop, with an array of `capacity + 1` units. It yields the slice that the operation is given.
unfoldable pub wide_loop : ℕ → List ℕ → Buffer → ℕ → Result (List ℕ)
wide_loop capacity [] inline len = do
  terminated ← write len 0 inline
  from_raw_parts (len + 1) terminated
wide_loop capacity (code_unit ∷ encoded) inline len =
    let outgrown = do
      initialized ← from_raw_parts len inline
      push_rest (initialized ++ code_unit ∷ []) encoded
    in let rest =
        write len code_unit inline >>= λ inline'. wide_loop capacity encoded inline' (len + 1) in
      if code_unit == 0 then err null_error else if len == capacity then outgrown else rest

unfoldable pub wide_units : List ℕ → Result (List ℕ)
wide_units path = wide_loop 260 path (replicate volume_path_capacity none) 0

unfoldable pub with_wide_path {ℓ} : {S : Type 0} {A : Type ℓ} → List ℕ → (List ℕ → Io S A) → Io S A
with_wide_path path operation = Io.◌>>=◌ (Io.lift (wide_units path)) operation

unfoldable pub valid_drive_root_components : ℕ → ℕ → ℕ → ℕ → Bool
valid_drive_root_components drive colon separator terminator =
    let is_uppercase_drive = leb b'A' drive && leb drive b'Z' in
    let is_lowercase_drive = leb b'a' drive && leb drive b'z' in
    let is_drive_letter = is_uppercase_drive || is_lowercase_drive in
    let is_separator = separator == b'\\' || separator == b'/' in
    is_drive_letter && (colon == b':' && (is_separator && terminator == 0))

-- `root_path[..path.len()].copy_from_slice(path)` and `root_path[2] = b'\\'`, for the only length
-- that reaches them.
unfoldable pub overwrite_root : List ℕ → List ℕ → List ℕ
overwrite_root (drive ∷ colon ∷ separator ∷ terminator ∷ []) root_path =
    drive ∷ colon ∷ b'\\' ∷ terminator ∷ drop 4 root_path
overwrite_root path root_path = root_path

-- The new root path if the path is exactly a drive root, and `none` for `false`.
unfoldable pub copy_exact_drive_root : List ℕ → List ℕ → Option (List ℕ)
unfolding valid_drive_root_components overwrite_root
copy_exact_drive_root (drive ∷ colon ∷ separator ∷ terminator ∷ []) root_path =
    if valid_drive_root_components drive colon separator terminator
    then some (overwrite_root (drive ∷ colon ∷ separator ∷ terminator ∷ []) root_path)
    else none
copy_exact_drive_root path root_path = none

-- `GetVolumePathNameW` fills the root path.
unfoldable pub volume_path :
    {S : Type 0} → (List ℕ → List ℕ → S → (Call × List ℕ) × S) → List ℕ → List ℕ → Io S (List ℕ)
unfolding win32_bool_result
volume_path call path root_path s =
    let (answer, s') = call path root_path s in
    (win32_bool_result answer.0 >>= λ _. ok answer.1, s')
