-- ===== src/Unix/Platform/Fallocate/Laws.antt =====
-- What a successful allocation means where `posix_fallocate` is the provider.
use fs2_turbo.Base.{ℕ, ℤ, pos, ◌≤◌, ◌<◌, ◌≡◌, ErrorKind, custom, ok, err, eqb_ℤ_iff, arith}
use fs2_turbo.Base.Io.{Io}
use fs2_turbo.Allocation.{AllocationState, allocate, allocate_with_state, finish_allocation}
use fs2_turbo.Unix.Platform.Fallocate.{fallocate_sys, allocate_space}

-- POSIX: where `posix_fallocate` returns 0, the range is backed and the length is at least its end.
pub record FallocateLaws {S F : Type 0} (posix_fallocate : F → ℤ → ℤ → S → ℤ × S) : Type 0 where
  pub backed_prefix : F → S → ℕ
  pub length_of : F → S → ℕ
  pub fallocate_backs :
      (f : F) (n : ℕ) (s : S)
      → (posix_fallocate f (pos 0) (pos n) s).0 ≡ pos 0
      → (n ≤ backed_prefix f (posix_fallocate f (pos 0) (pos n) s).1)
        × (n ≤ length_of f (posix_fallocate f (pos 0) (pos n) s).1)

module _ {S F : Type 0} (off_max : ℕ) (posix_fallocate : F → ℤ → ℤ → S → ℤ × S)
    (allocation_state : F → Io S AllocationState) (metadata_len : F → Io S ℕ)
    (set_len : F → ℕ → Io S (Unit {0})) where
  -- Where `posix_fallocate` backs its range when it returns 0, a successful allocation on its
  -- platforms has backed every byte up to the length asked for, and the file is at least that
  -- long.
  pub allocate_backs :
      (laws : FallocateLaws posix_fallocate) (f : F) (n : ℕ) (s : S)
      → (allocate
          (fallocate_sys off_max posix_fallocate allocation_state metadata_len set_len)
          f
          n
          s).0
        ≡ ok tt
      → let s' =
          (allocate
            (fallocate_sys off_max posix_fallocate allocation_state metadata_len set_len)
            f
            n
            s).1 in
        (n ≤ laws.backed_prefix f s') × (n ≤ laws.length_of f s')
  unfolding allocate allocate_with_state finish_allocation fallocate_sys allocate_space
  allocate_backs laws f n s h = ground (
    arith,
    laws.fallocate_backs f n (allocation_state f s).1,
    eqb_ℤ_iff (posix_fallocate f (pos 0) (pos n) (allocation_state f s).1).0 (pos 0),
  )

  -- Where `posix_fallocate` is the provider and the state query succeeds, a length beyond `off_t`
  -- is refused as invalid input before space is asked for: the system is as the state query left
  -- it.
  pub allocate_too_large :
      (f : F) (n : ℕ) (s : S) {a : AllocationState}
      → off_max < n
      → (allocation_state f s).0 ≡ ok a
      → allocate (fallocate_sys off_max posix_fallocate allocation_state metadata_len set_len) f n s
        ≡ (
          err (custom ErrorKind.invalid_input "allocation length is too large"),
          (allocation_state f s).1,
        )
  unfolding allocate allocate_with_state finish_allocation fallocate_sys allocate_space
  allocate_too_large f n s h e = ground arith
