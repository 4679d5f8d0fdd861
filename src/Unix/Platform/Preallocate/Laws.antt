-- ===== src/Unix/Platform/Preallocate/Laws.antt =====
-- The two attempts of macOS, and the shape of the second request.
use fs2_turbo.Base.{ℕ, pos, negsuc, ◌≤◌, ◌≡◌, ◌≢◌, ◌⊎◌, ◌↔◌, ok, i64_max, eqb_ℤ_iff, arith}
use fs2_turbo.Allocation.{AllocationState}
use fs2_turbo.Unix.Platform.Preallocate.{
  Constants, Fstore, Fcntl, contiguous, allocate_space_with_state,
}

module _ {S : Type 0} (c : Constants) (preallocate : Fstore → S → Fcntl × S) where
  -- The first call, and the second one that a failure of the first would make.
  abbrev pub first_try : ℕ → S → Fcntl × S
  first_try n s = preallocate (contiguous c preallocate (pos n)) s

  abbrev pub second_try : ℕ → S → Fcntl × S
  second_try n s =
      preallocate (record ((first_try n s).0.fstore) { fst_flags = c.f_allocateall })
        (first_try n s).1

  -- On macOS space is reserved exactly when the state already has it, or the length fits `off_t`
  -- and the contiguous request or the one behind it, for any extents, does not return -1; the
  -- second request is the structure that the first left, with other flags.
  pub allocate_space_iff :
      (a : AllocationState) (n : ℕ) (s : S)
      → ((allocate_space_with_state c preallocate a n s).0 ≡ ok tt) ↔ (
          (n ≤ a.allocated_size)
          ⊎ ((n ≤ i64_max)
              × (((first_try n s).0.result ≢ negsuc 0) ⊎ ((second_try n s).0.result ≢ negsuc 0))))
  unfolding allocate_space_with_state
  allocate_space_iff a n s =
      let first = eqb_ℤ_iff (first_try n s).0.result (negsuc 0) in
      let second = eqb_ℤ_iff (second_try n s).0.result (negsuc 0) in
      (λ h. ground (arith, first, second), λ h. ground (arith, first, second))
