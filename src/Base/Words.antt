-- ===== src/Base/Words.antt =====
-- Unsigned machine words as native numbers, and the checked operations of the standard library.
use Prim.Native.Nat.{ℕ, ◌-◌, ◌*◌, ◌%◌}
use mathlib.Core.Option.{Option, none, some}
use fs2_turbo.Base.Tests.{ltb, leb, if◌then◌else◌}
use fs2_turbo.Base.Int.{ℤ, pos, negsuc}

abbrev pub u16_mod : ℕ
u16_mod = 0x1_0000

abbrev pub u32_mod : ℕ
u32_mod = 0x1_0000_0000

abbrev pub u64_max : ℕ
u64_max = 0xffff_ffff_ffff_ffff

abbrev pub i64_max : ℕ
i64_max = 0x7fff_ffff_ffff_ffff

-- `u64::checked_mul`.
abbrev pub checked_mul : ℕ → ℕ → Option ℕ
checked_mul a b = if leb (a * b) u64_max then some (a * b) else none

-- `a * b` on `u64`, wrapping as a release build does.
abbrev pub wrapping_mul : ℕ → ℕ → ℕ
wrapping_mul a b = (a * b) % 0x1_0000_0000_0000_0000

-- `i64::try_from` of a `u64`.
abbrev pub to_i64 : ℕ → Option ℤ
to_i64 n = if leb n i64_max then some (pos n) else none

-- `as u32` of an `i32`, and `as i32` of a `u32`: the same 32 bits.
abbrev pub as_u32 : ℤ → ℕ
as_u32 (pos n) = n % u32_mod
as_u32 (negsuc n) = u32_mod - 1 - n % u32_mod

abbrev pub as_i32 : ℕ → ℤ
as_i32 n = if ltb n 0x8000_0000 then pos n else negsuc (u32_mod - 1 - n)

abbrev pub u32_max : ℕ
u32_max = 0xffff_ffff
