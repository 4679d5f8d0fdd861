-- ===== src/Windows/Handle.antt =====
-- Duplicating a handle: src/windows/file.rs. The call of `DuplicateHandle`, made inheritable and
-- with the same access, is a parameter: its answer and the new handle.
use fs2_turbo.Base.{ℕ, Result, ok, ◌>>◌}
use fs2_turbo.Base.Io.{Io}
use fs2_turbo.Windows.Path.{Call, win32_bool_result}

unfoldable pub duplicate_result : Call × ℕ → Result ℕ
unfolding win32_bool_result
duplicate_result answer = do win32_bool_result answer.0; ok answer.1

unfoldable pub duplicate : {S : Type 0} → (ℕ → S → (Call × ℕ) × S) → ℕ → Io S ℕ
unfolding duplicate_result
duplicate duplicate_handle file s =
    let (answer, s') = duplicate_handle file s in (duplicate_result answer, s')
