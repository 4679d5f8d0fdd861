-- ===== src/Unix/Allocation.antt =====
-- The allocation state of a file from `fstat`: src/unix/allocation.rs.
pub mod Exact
use fs2_turbo.Base.{
  ℕ, ℤ, String, ErrorKind, os, custom, Result, ok, err, ◌>>=◌, ◌>>◌, fail_if, ok_or, to_unsigned,
  leb, ltb_ℤ, pos, if◌then◌else◌, u64_max, ◌/◌, ◌*◌, ◌%◌,
}
use fs2_turbo.Base.Io.{Io}
use fs2_turbo.Allocation.{AllocationState}

-- The two fields of `libc::stat` that are read; both are signed 64-bit numbers.
pub record Stat : Type 0 where
  pub st_blocks : ℤ
  pub st_size : ℤ

-- What a call leaves behind: its result, `errno`, and the structure that it filled.
pub record Fstat : Type 0 where
  pub result : ℤ
  pub errno : ℤ
  pub stat : Stat

-- `std::fs::Metadata`, with its blocks and its length as the standard library reports them.
pub record Metadata : Type 0 where
  pub blocks : ℕ
  pub len : ℕ

unfoldable pub blocks_to_bytes : ℕ → Result ℕ
blocks_to_bytes blocks =
    if leb blocks (u64_max / 512)
    then ok ((blocks * 512) % 0x1_0000_0000_0000_0000)
    else err (custom ErrorKind.invalid_data "allocated size overflowed")

unfoldable pub allocation_state_from_blocks : ℕ → ℕ → Result AllocationState
unfolding blocks_to_bytes
allocation_state_from_blocks blocks file_size = do
  allocated_size ← blocks_to_bytes blocks
  ok (record { allocated_size = allocated_size; file_size = file_size })

unfoldable pub i64_to_u64 : ℤ → String → Result ℕ
i64_to_u64 value message = ok_or (to_unsigned value) (custom ErrorKind.invalid_data message)

-- The path of 64-bit Linux.
unfoldable pub allocation_state_result : Fstat → Result AllocationState
unfolding i64_to_u64 allocation_state_from_blocks
allocation_state_result call = do
  fail_if (ltb_ℤ call.result (pos 0)) (os call.errno)
  blocks ← i64_to_u64 call.stat.st_blocks "filesystem returned a negative allocated block count"
  file_size ← i64_to_u64 call.stat.st_size "filesystem returned a negative file size"
  allocation_state_from_blocks blocks file_size

-- The path of every other Unix.
unfoldable pub allocation_state_from_metadata : Result Metadata → Result AllocationState
unfolding allocation_state_from_blocks
allocation_state_from_metadata metadata = do
  m ← metadata
  allocation_state_from_blocks m.blocks m.len

module _ {S F : Type 0} where
  unfoldable pub linux_allocation_state : (F → S → Fstat × S) → F → Io S AllocationState
  unfolding allocation_state_result
  linux_allocation_state fstat file s =
      let (call, s') = fstat file s in (allocation_state_result call, s')

  unfoldable pub metadata_allocation_state : (F → Io S Metadata) → F → Io S AllocationState
  unfolding allocation_state_from_metadata
  metadata_allocation_state metadata file s =
      let (m, s') = metadata file s in (allocation_state_from_metadata m, s')
