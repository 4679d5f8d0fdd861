-- ===== src/Base/Buffer.antt =====
-- Buffers that start uninitialised, and paths that end in a null: what src/unix/path.rs and
-- src/windows/path.rs share. A cell is `none` until it is written, and a write or a read that Rust
-- would refuse or leave undefined is the error `fault`.
pub mod Laws
use Prim.Native.Nat.{ℕ, zero, suc}
use mathlib.Core.Bool.{Bool, true, false, ◌||◌}
use mathlib.Core.Option.{Option, none, some}
use mathlib.Core.List.{List, [], ◌∷◌, ◌++◌}
use fs2_turbo.Base.Tests.{◌==◌, if◌then◌else◌}
use fs2_turbo.Base.Errors.{ErrorKind, Error, custom, fault, Result, ok, err, ◌>>=◌}

abbrev pub Buffer : Type 0
Buffer = List (Option ℕ)

-- A write of one element.
unfoldable pub write : ℕ → ℕ → Buffer → Result Buffer
write i b [] = err fault
write zero b (cell ∷ buffer) = ok (some b ∷ buffer)
write (suc i) b (cell ∷ buffer) = do rest ← write i b buffer; ok (cell ∷ rest)

-- The first `n` elements as a slice.
unfoldable pub from_raw_parts : ℕ → Buffer → Result (List ℕ)
from_raw_parts zero buffer = ok []
from_raw_parts (suc n) [] = err fault
from_raw_parts (suc n) (none ∷ buffer) = err fault
from_raw_parts (suc n) (some b ∷ buffer) = do rest ← from_raw_parts n buffer; ok (b ∷ rest)

unfoldable pub contains_null : List ℕ → Bool
contains_null [] = false
contains_null (b ∷ bytes) = b == 0 || contains_null bytes

abbrev pub null_error : Error
null_error = custom ErrorKind.invalid_input "path contained a null"

-- The null-terminated copy of a path, or the refusal of one that has a null inside: what
-- `CString::new(bytes)` gives, and the reference that both platforms' buffers are held to.
unfoldable pub null_terminated : List ℕ → Result (List ℕ)
null_terminated bytes = if contains_null bytes then err null_error else ok (bytes ++ 0 ∷ [])
