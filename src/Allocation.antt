-- ===== src/Allocation.antt =====
-- Preallocation as it is written once for all platforms: src/allocation.rs. A platform gives the
-- state query, the reservation call and two flags; the standard library reads and sets a length.
pub mod Length
pub mod Paths
use fs2_turbo.Base.{ℕ, Bool, Result, ok, err, ltb, ◌==◌, not, ◌&&◌, ◌||◌, if◌then◌else◌}
use fs2_turbo.Base.Io.{Io, lift, ◌>>=◌, ◌>>◌}

pub record AllocationState : Type 0 where
  pub allocated_size : ℕ
  pub file_size : ℕ

-- What `crate::sys` and `std::fs::File` provide, over a file `F` and the system's state `S`.
pub record Sys (S F : Type 0) : Type 0 where
  pub allocation_state : F → Io S AllocationState
  pub allocate_space : F → AllocationState → ℕ → Io S (Unit {0})
  pub metadata_len : F → Io S ℕ
  pub set_len : F → ℕ → Io S (Unit {0})
  pub always_reserve_range : Bool
  pub allocate_space_extends_length : Bool

unfoldable pub reservation_needed : AllocationState → ℕ → Bool → Bool
reservation_needed state len always_reserve_range =
    ltb state.allocated_size len || (not (len == 0) && always_reserve_range)

module _ {S F : Type 0} (sys : Sys S F) where
  unfoldable pub extend_file_length_after_snapshot_with : F → ℕ → Result ℕ → Io S (Unit {0})
  extend_file_length_after_snapshot_with file len (ok current) =
      if ltb current len then sys.set_len file len else lift (ok tt)
  extend_file_length_after_snapshot_with file len (err e) = lift (err e)

  unfoldable pub extend_file_length_after_snapshot : F → ℕ → Io S (Unit {0})
  unfolding extend_file_length_after_snapshot_with
  extend_file_length_after_snapshot file len s =
      let (current, s') = sys.metadata_len file s in
      extend_file_length_after_snapshot_with file len current s'

  unfoldable pub finish_allocation : F → ℕ → ℕ → Bool → Io S (Unit {0})
  unfolding extend_file_length_after_snapshot
  finish_allocation file len observed_size reservation_can_set_length =
      if not reservation_can_set_length && ltb observed_size len
      then extend_file_length_after_snapshot file len
      else lift (ok tt)

  unfoldable pub allocate_with_state : F → ℕ → Result AllocationState → Io S (Unit {0})
  unfolding reservation_needed
  allocate_with_state file len result = do
    state ← lift result
    let needed = reservation_needed state len sys.always_reserve_range
    let can_set_length = needed && sys.allocate_space_extends_length
    if needed then sys.allocate_space file state len else lift (ok tt)
    finish_allocation file len state.file_size can_set_length

  unfoldable pub allocate : F → ℕ → Io S (Unit {0})
  allocate file len s =
      let (state, s') = sys.allocation_state file s in allocate_with_state file len state s'

  unfoldable pub allocated_size : F → Io S ℕ
  allocated_size file = do state ← sys.allocation_state file; lift (ok state.allocated_size)
