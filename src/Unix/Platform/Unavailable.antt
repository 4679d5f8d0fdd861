-- ===== src/Unix/Platform/Unavailable.antt =====
-- Every other Unix: no provider, so a request for space fails and never claims to have reserved.
use fs2_turbo.Base.{ℕ, ErrorKind, custom, ok, err, true, false, Bool, ◌<◌, ◌≡◌, ◌≢◌, arith}
use fs2_turbo.Base.Io.{Io, lift}
use fs2_turbo.Allocation.{AllocationState, Sys, allocate, allocate_with_state}

abbrev pub allocate_space_extends_length : Bool
allocate_space_extends_length = false

abbrev pub always_reserve_range : Bool
always_reserve_range = true

unfoldable pub allocate_space : {S F : Type 0} → F → AllocationState → ℕ → Io S (Unit {0})
allocate_space file state len =
    lift (
      err (custom ErrorKind.unsupported "physical file allocation is unavailable on this platform"))

unfoldable pub unavailable_sys :
    {S F : Type 0} → (F → Io S AllocationState) → (F → Io S ℕ) → (F → ℕ → Io S (Unit {0})) → Sys S F
unavailable_sys allocation_state metadata_len set_len = record {
  allocation_state = allocation_state;
  allocate_space = allocate_space;
  metadata_len = metadata_len;
  set_len = set_len;
  always_reserve_range = always_reserve_range;
  allocate_space_extends_length = allocate_space_extends_length;
}

module _ {S F : Type 0} (allocation_state : F → Io S AllocationState) (metadata_len : F → Io S ℕ)
    (set_len : F → ℕ → Io S (Unit {0})) where
  -- On a Unix with no provider a request for a byte or more never succeeds, and the system is as
  -- the state query left it.
  pub unavailable_fails :
      (f : F) (n : ℕ) (s : S)
      → 0 < n
      → ((allocate (unavailable_sys allocation_state metadata_len set_len) f n s).0 ≢ ok tt)
        × ((allocate (unavailable_sys allocation_state metadata_len set_len) f n s).1
            ≡ (allocation_state f s).1)
  unfolding allocate allocate_with_state unavailable_sys allocate_space
  unavailable_fails f n s h = (λ e. ground arith, ground arith)
