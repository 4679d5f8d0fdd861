-- ===== src/Unix/Platform/Fallocate.antt =====
-- `posix_fallocate`: Linux, FreeBSD, Android and Emscripten. The width of `off_t` is a parameter,
-- `off_max`, its largest value.
pub mod Laws
use fs2_turbo.Base.{
  ℕ, ℤ, pos, eqb_ℤ, leb, ErrorKind, os, custom, Option, none, some, Result, ok, err, ok_or,
  if◌then◌else◌, true, false, Bool,
}
use fs2_turbo.Base.Io.{Io, lift, ◌>>=◌}
use fs2_turbo.Allocation.{AllocationState, Sys}

abbrev pub allocate_space_extends_length : Bool
allocate_space_extends_length = true

abbrev pub always_reserve_range : Bool
always_reserve_range = true

unfoldable pub cast_allocate_length : ℕ → ℕ → Result ℤ
cast_allocate_length off_max len =
    ok_or (if leb len off_max then some (pos len) else none)
      (custom ErrorKind.invalid_input "allocation length is too large")

module _ {S F : Type 0} (off_max : ℕ) (posix_fallocate : F → ℤ → ℤ → S → ℤ × S) where
  unfoldable pub allocate_with_fallocate : F → ℤ → S → ℤ × S
  allocate_with_fallocate file len s = posix_fallocate file (pos 0) len s

  unfoldable pub allocate_space : F → AllocationState → ℕ → Io S (Unit {0})
  unfolding cast_allocate_length allocate_with_fallocate
  allocate_space file state len = do
    len ← lift (cast_allocate_length off_max len)
    λ s.
        let (ret, s') = allocate_with_fallocate file len s in
        (if eqb_ℤ ret (pos 0) then ok tt else err (os ret), s')

-- The platform, with the state query and the standard library's calls of the target.
unfoldable pub fallocate_sys :
    {S F : Type 0}
    → ℕ
    → (F → ℤ → ℤ → S → ℤ × S)
    → (F → Io S AllocationState)
    → (F → Io S ℕ)
    → (F → ℕ → Io S (Unit {0}))
    → Sys S F
fallocate_sys off_max posix_fallocate allocation_state metadata_len set_len = record {
  allocation_state = allocation_state;
  allocate_space = allocate_space off_max posix_fallocate;
  metadata_len = metadata_len;
  set_len = set_len;
  always_reserve_range = always_reserve_range;
  allocate_space_extends_length = allocate_space_extends_length;
}
