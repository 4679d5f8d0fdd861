-- ===== src/Unix/Handle.antt =====
-- Duplicating a descriptor: src/unix/file.rs. The call of `dup` gives a number and `errno`.
use fs2_turbo.Base.{ℤ, pos, os, Result, ok, err, ltb_ℤ, if◌then◌else◌}
use fs2_turbo.Base.Io.{Io}

-- `File::from_raw_fd` is the number itself, as the owner of the descriptor.
unfoldable pub duplicate_result : ℤ × ℤ → Result ℤ
duplicate_result answer = if ltb_ℤ answer.0 (pos 0) then err (os answer.1) else ok answer.0

unfoldable pub duplicate : {S : Type 0} → (ℤ → S → (ℤ × ℤ) × S) → ℤ → Io S ℤ
unfolding duplicate_result
duplicate dup file s = let (answer, s') = dup file s in (duplicate_result answer, s')
