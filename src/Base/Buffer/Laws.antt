-- ===== src/Base/Buffer/Laws.antt =====
-- A buffer that is filled in order, read back.
use Prim.Native.Nat.{ℕ, zero, suc, ◌+◌, ◌<◌}
use mathlib.Core.Path.{◌≡◌, refl, sym}
use mathlib.Core.Option.{Option, some}
use mathlib.Core.List.{List, [], ◌∷◌, ◌++◌, map}
use native.Mathlib.Omega.{arith}
use native.Mathlib.Numerals.{add-one}
use fs2_turbo.Base.Lists.{length, length-map}
use fs2_turbo.Base.Errors.{ok, ◌>>=◌}
use fs2_turbo.Base.Buffer.{Buffer, write, from_raw_parts}

pub write-append :
    (i b : ℕ) (done : Buffer) (cell : Option ℕ) (rest : Buffer)
    → i ≡ length done
    → write i b (done ++ cell ∷ rest) ≡ ok (done ++ some b ∷ rest)
unfolding write
write-append zero b [] cell rest e = refl
write-append zero b (d ∷ done) cell rest e = absurd (omega arith)
write-append (suc i) b [] cell rest e = absurd (omega arith)
write-append (suc i) b (d ∷ done) cell rest e = rw (write-append i b done cell rest (omega arith))

pub from_raw_parts-initialised :
    (bytes : List ℕ) (rest : Buffer) (n : ℕ)
    → from_raw_parts (suc (length bytes)) (map some bytes ++ some n ∷ rest) ≡ ok (bytes ++ n ∷ [])
unfolding from_raw_parts
from_raw_parts-initialised [] rest n = refl
from_raw_parts-initialised (b ∷ bytes) rest n = rw (from_raw_parts-initialised bytes rest n)

-- The first cells alone, whatever stands behind them.
pub from_raw_parts-prefix :
    (bytes : List ℕ) (rest : Buffer)
    → from_raw_parts (length bytes) (map some bytes ++ rest) ≡ ok bytes
unfolding from_raw_parts
from_raw_parts-prefix [] rest = refl
from_raw_parts-prefix (b ∷ bytes) rest = rw (from_raw_parts-prefix bytes rest)

-- The terminator and the slice, over a full copy.
pub terminate_copy :
    (bytes : List ℕ) (rest : Buffer)
    → 0 < length rest
    → (write (length bytes) 0 (map some bytes ++ rest) >>= λ terminated.
        from_raw_parts (length bytes + 1) terminated)
      ≡ ok (bytes ++ 0 ∷ [])
terminate_copy bytes [] h = absurd (omega arith)
terminate_copy bytes (cell ∷ rest) h =
    rw
      (
        write-append (length bytes) 0 (map some bytes) cell rest (sym (length-map some bytes)),
        add-one,
      )
      (from_raw_parts-initialised bytes rest 0)
