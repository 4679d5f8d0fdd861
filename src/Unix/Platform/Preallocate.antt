-- ===== src/Unix/Platform/Preallocate.antt =====
-- `fcntl(F_PREALLOCATE)`: macOS and iOS. It tries a contiguous extent first, then any extents.
pub mod Laws
pub mod Length
use fs2_turbo.Base.{
  ℕ, ℤ, pos, negsuc, eqb_ℤ, leb, ErrorKind, os, custom, Result, ok, err, ok_or, to_i64,
  if◌then◌else◌, false, Bool,
}
use fs2_turbo.Base.Io.{Io, lift, ◌>>=◌}
use fs2_turbo.Allocation.{AllocationState, Sys}

abbrev pub allocate_space_extends_length : Bool
allocate_space_extends_length = false

abbrev pub always_reserve_range : Bool
always_reserve_range = false

-- The names of `libc` that the code uses.
pub record Constants : Type 0 where
  pub f_allocatecontig : ℕ
  pub f_allocateall : ℕ
  pub f_peofposmode : ℤ

-- `libc::fstore_t`.
pub record Fstore : Type 0 where
  pub fst_flags : ℕ
  pub fst_posmode : ℤ
  pub fst_offset : ℤ
  pub fst_length : ℤ
  pub fst_bytesalloc : ℤ

-- A call of `fcntl`: its result, `errno`, and the structure as the kernel left it.
pub record Fcntl : Type 0 where
  pub result : ℤ
  pub errno : ℤ
  pub fstore : Fstore

module _ {S : Type 0} (c : Constants) (preallocate : Fstore → S → Fcntl × S) where
  -- The first request.
  abbrev pub contiguous : ℤ → Fstore
  contiguous len = record {
    fst_flags = c.f_allocatecontig;
    fst_posmode = c.f_peofposmode;
    fst_offset = pos 0;
    fst_length = len;
    fst_bytesalloc = pos 0;
  }

  -- `if ret == -1 { Err(last_os_error) } else { Ok }` on the last call made.
  unfoldable pub preallocate_result : Fcntl → Result (Unit {0})
  preallocate_result call = if eqb_ℤ call.result (negsuc 0) then err (os call.errno) else ok tt

  unfoldable pub preallocate_twice : ℤ → Io S (Unit {0})
  unfolding preallocate_result
  preallocate_twice len s =
      let (first, s') = preallocate (contiguous len) s in
      let again = preallocate (record (first.fstore) { fst_flags = c.f_allocateall }) s' in
      if eqb_ℤ first.result (negsuc 0)
      then (preallocate_result again.0, again.1)
      else (preallocate_result first, s')

  unfoldable pub allocate_space_with_state : AllocationState → ℕ → Io S (Unit {0})
  unfolding preallocate_twice
  allocate_space_with_state state len =
      let request = do
        len ←
            lift
              (ok_or (to_i64 len) (custom ErrorKind.invalid_input "allocation length is too large"))
        preallocate_twice len
      in if leb len state.allocated_size then lift (ok tt) else request

-- The platform: the closure that the source passes calls `fcntl` on the file.
unfoldable pub preallocate_sys :
    {S F : Type 0}
    → Constants
    → (F → Fstore → S → Fcntl × S)
    → (F → Io S AllocationState)
    → (F → Io S ℕ)
    → (F → ℕ → Io S (Unit {0}))
    → Sys S F
preallocate_sys c preallocate allocation_state metadata_len set_len = record {
  allocation_state = allocation_state;
  allocate_space = λ file. allocate_space_with_state c (preallocate file);
  metadata_len = metadata_len;
  set_len = set_len;
  always_reserve_range = always_reserve_range;
  allocate_space_extends_length = allocate_space_extends_length;
}
