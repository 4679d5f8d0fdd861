-- ===== src/Unix/Allocation/Exact.antt =====
-- The block count becomes the exact number of bytes, or an error.
use fs2_turbo.Base.{
  ℕ, pos, pos_part, ◌*◌, ◌≤◌, ◌≡◌, ◌↔◌, ok, checked_mul, ok_or, custom, ErrorKind, leb_ℤ, true,
  u64_max, arith,
}
use fs2_turbo.Allocation.{AllocationState}
use fs2_turbo.Unix.Allocation.{Fstat, blocks_to_bytes, allocation_state_result}

pub blocks_to_bytes-checked :
    (blocks : ℕ)
    → blocks_to_bytes blocks
      ≡ ok_or (checked_mul blocks 512) (custom ErrorKind.invalid_data "allocated size overflowed")
unfolding blocks_to_bytes
blocks_to_bytes-checked blocks = ground arith

-- `fstat` succeeded with non-negative numbers whose byte count fits.
abbrev pub Reports : Fstat → AllocationState → Type 0
Reports call a =
    (leb_ℤ (pos 0) call.result ≡ true)
    × (blocks : ℕ) × (call.stat.st_blocks ≡ pos blocks)
    × (call.stat.st_size ≡ pos a.file_size)
    × (a.allocated_size ≡ blocks * 512)
    × (blocks * 512 ≤ u64_max)

-- The answer of `fstat` is an allocation state exactly when the call did not fail, blocks and size
-- are not negative and 512 bytes for each block fit a `u64`; the state then has that exact byte
-- count and that size.
pub allocation_state_result_iff :
    (call : Fstat) (a : AllocationState) → (allocation_state_result call ≡ ok a) ↔ Reports call a
unfolding allocation_state_result
allocation_state_result_iff call a = (
  λ h.
      let blocks : ℕ = pos_part call.stat.st_blocks in
      (ground arith, blocks, ground arith, ground arith, ground arith, ground arith),
  λ h. ground arith,
)
