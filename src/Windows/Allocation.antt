-- ===== src/Windows/Allocation.antt =====
-- Preallocation on Windows: the first half of src/windows/allocation.rs.
pub mod Sparse
pub mod Refused
pub mod Length
use fs2_turbo.Base.{
  ℕ, ℤ, pos, zero, suc, ltb, leb, ◌==◌, not, max, Bool, true, false, ErrorKind, custom, Option,
  none, some, Result, ok, err, ◌>>=◌, ◌>>◌, ok_or, to_unsigned, to_i64, bit_and, bit_or,
  if◌then◌else◌,
}
use fs2_turbo.Base.Io
use fs2_turbo.Base.Io.{Io, lift}
use fs2_turbo.Allocation.{AllocationState}
use fs2_turbo.Windows.Path.{Call, win32_bool_result}
use fs2_turbo.Windows.Overlapped.{EventSys}
use fs2_turbo.Windows.Control.{
  ControlConstants, ControlSys, requested_range_is_allocated, clear_sparse_file, set_sparse_file,
}

pub record Attributes : Type 0 where
  pub offline : ℕ
  pub recall_on_data_access : ℕ
  pub recall_on_open : ℕ
  pub compressed : ℕ
  pub sparse_file : ℕ

-- `FILE_STANDARD_INFO`, with the answer of the call that filled it.
pub record StandardInfo : Type 0 where
  pub call : Call
  pub allocation_size : ℤ
  pub end_of_file : ℤ

-- The calls on a file: `set_allocation` is `SetFileInformationByHandle(FileAllocationInfo)`.
pub record FileSys (S F : Type 0) : Type 0 where
  pub standard_info : F → S → StandardInfo × S
  pub basic_info : F → S → (Call × ℕ) × S
  pub set_allocation : F → ℤ → S → Call × S
  pub metadata_len : F → Io S ℕ
  pub set_len : F → ℕ → Io S (Unit {0})

unfoldable pub allocation_state_from_values : ℤ → ℤ → Result AllocationState
allocation_state_from_values allocated_size file_size = do
  allocated_size ←
      ok_or (to_unsigned allocated_size)
        (custom ErrorKind.invalid_data "filesystem returned a negative allocation size")
  file_size ←
      ok_or (to_unsigned file_size)
        (custom ErrorKind.invalid_data "filesystem returned a negative file size")
  ok (record { allocated_size = allocated_size; file_size = file_size })

unfoldable pub allocation_state_result : StandardInfo → Result AllocationState
unfolding win32_bool_result allocation_state_from_values
allocation_state_result info = do
  win32_bool_result info.call
  allocation_state_from_values info.allocation_size info.end_of_file

abbrev pub allocation_target : AllocationState → ℕ → ℕ
allocation_target state len = max len state.file_size

-- `reserve_sparse_range_with`: its three closures are actions.
module _ {S : Type 0} (query : Io S Bool) (clear restore : Io S (Unit {0})) where
  unfoldable pub verify_again : Io S (Unit {0})
  verify_again = Io.◌>>=◌ query λ covered.
      if covered
      then lift (ok tt)
      else lift (
          err (
            custom ErrorKind.unsupported
              "Windows could not establish physical coverage of the requested sparse range"))

  unfoldable pub clear_and_restore : Io S (Unit {0})
  unfolding verify_again
  clear_and_restore = Io.◌>>◌ clear (Io.◌>>◌ restore verify_again)

  unfoldable pub reserve_sparse_range_with : Io S (Unit {0})
  unfolding clear_and_restore
  reserve_sparse_range_with =
      Io.◌>>=◌ query λ covered. if covered then lift (ok tt) else clear_and_restore

module _ {S F : Type 0} (a : Attributes) (c : ControlConstants) (events : EventSys S)
    (controls : ControlSys S F) (sys : FileSys S F) where
  unfoldable pub allocation_state : F → Io S AllocationState
  unfolding allocation_state_result
  allocation_state file s =
      let (info, s') = sys.standard_info file s in (allocation_state_result info, s')

  unfoldable pub extend_file_length_with : F → ℕ → Result ℕ → Io S (Unit {0})
  extend_file_length_with file len (ok length) s =
      if ltb length len then sys.set_len file len s else (ok tt, s)
  extend_file_length_with file len (err e) s = (err e, s)

  unfoldable pub extend_file_length : F → ℕ → Io S (Unit {0})
  unfolding extend_file_length_with
  extend_file_length file len s =
      let (length, s') = sys.metadata_len file s in extend_file_length_with file len length s'

  unfoldable pub set_allocation : F → ℕ → Result ℤ → Io S (Unit {0})
  unfolding win32_bool_result
  set_allocation file target (ok allocation_size) s =
      let (call, s') = sys.set_allocation file allocation_size s in
      Io.◌>>◌ (lift (win32_bool_result call)) (extend_file_length file target) s'
  set_allocation file target (err e) s = (err e, s)

  unfoldable pub allocate_regular_space : F → AllocationState → ℕ → Io S (Unit {0})
  unfolding set_allocation
  allocate_regular_space file state len =
      let target = allocation_target state len in
      set_allocation file target
        (ok_or (to_i64 target) (custom ErrorKind.invalid_input "allocation length is too large"))

  unfoldable pub reserve_sparse_range : F → ℕ → Io S (Unit {0})
  reserve_sparse_range file len =
      reserve_sparse_range_with (requested_range_is_allocated c events controls file len)
        (clear_sparse_file c events controls file) (set_sparse_file c events controls file true)

  unfoldable pub allocate_sparse_space : F → ℕ → Io S (Unit {0})
  allocate_sparse_space file len =
      Io.◌>>◌
        (lift
          (ok_or (to_i64 len) (custom ErrorKind.invalid_input "allocation length is too large")))
        (Io.◌>>◌ (extend_file_length file len) (reserve_sparse_range file len))

  -- An ordinary file: the snapshot decides.
  unfoldable pub allocate_ordinary : F → ℕ → AllocationState → Io S (Unit {0})
  allocate_ordinary file len state s =
      if leb len state.file_size
      then (ok tt, s)
      else if leb len state.allocated_size
      then extend_file_length file len s
      else allocate_regular_space file state len s

  unfoldable pub allocate_with_attributes : F → ℕ → ℕ → AllocationState → Io S (Unit {0})
  unfolding allocate_ordinary
  allocate_with_attributes file len attributes state s =
      if not (
        bit_and attributes (bit_or (bit_or a.offline a.recall_on_data_access) a.recall_on_open)
        == 0)
      then (
        err (
            custom ErrorKind.unsupported
              "Windows cannot prove full reservation for an offline or recall-on-access file"),
        s,
      )
      else if not (bit_and attributes a.compressed == 0)
      then (
        err (
            custom ErrorKind.unsupported
              "Windows cannot prove full reservation for a compressed file"),
        s,
      )
      else if not (bit_and attributes a.sparse_file == 0)
      then allocate_sparse_space file len s
      else allocate_ordinary file len state s

  -- `file_attributes_result`; its closure queries the allocation state.
  unfoldable pub file_attributes_result : F → Call → ℕ → Io S (ℕ × AllocationState)
  unfolding win32_bool_result allocation_state
  file_attributes_result file call attributes = Io.◌>>◌ (lift (win32_bool_result call)) (
      if attributes == 0
      then lift (err (custom ErrorKind.invalid_data "filesystem returned no file attributes"))
      else Io.◌>>=◌ (allocation_state file) λ state. lift (ok (attributes, state)))

  unfoldable pub file_attributes_and_state : F → Io S (ℕ × AllocationState)
  unfolding file_attributes_result
  file_attributes_and_state file s =
      let (info, s') = sys.basic_info file s in file_attributes_result file info.0 info.1 s'

  unfoldable pub allocate_with_attributes_result :
      F → ℕ → Result (ℕ × AllocationState) → Io S (Unit {0})
  allocate_with_attributes_result file len (ok (attributes, state)) s =
      allocate_with_attributes file len attributes state s
  allocate_with_attributes_result file len (err e) s = (err e, s)

  unfoldable pub allocate : F → ℕ → Io S (Unit {0})
  allocate file len s =
      let (answer, s') = file_attributes_and_state file s in
      if len == 0 then (ok tt, s) else allocate_with_attributes_result file len answer s'
