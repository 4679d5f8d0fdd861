-- ===== src/Unix/Platform/Preallocate/Length.antt =====
-- The macOS platform keeps the promises on lengths that the shared allocation code relies on.
use fs2_turbo.Base.{ℕ, ◌≤◌, ◌≡◌, ok, arith}
use fs2_turbo.Base.Io.{Io}
use fs2_turbo.Allocation.{AllocationState, Sys, allocate}
use fs2_turbo.Allocation.Length.{LengthLaws, allocate_extends}
use fs2_turbo.Unix.Platform.Preallocate.{
  Constants, Fstore, Fcntl, preallocate_sys, allocate_space_with_state,
}

-- `F_PREALLOCATE` does not change the length of a file; the other calls read it and set it.
pub record PreallocateLaws {S F : Type 0} (preallocate : F → Fstore → S → Fcntl × S)
    (allocation_state : F → Io S AllocationState) (metadata_len : F → Io S ℕ)
    (set_len : F → ℕ → Io S (Unit {0})) : Type 0 where
  pub length_of : F → S → ℕ
  pub keeps_length :
      (f : F) (request : Fstore) (s : S) → length_of f (preallocate f request s).1 ≡ length_of f s
  pub state_reads :
      (f : F) (s : S) (a : AllocationState)
      → (allocation_state f s).0 ≡ ok a
      → (length_of f s ≤ a.file_size) × (a.file_size ≤ length_of f (allocation_state f s).1)
  pub metadata_reads :
      (f : F) (s : S) (n : ℕ)
      → (metadata_len f s).0 ≡ ok n
      → (length_of f s ≤ n) × (n ≡ length_of f (metadata_len f s).1)
  pub set_len_sets :
      (f : F) (n : ℕ) (s : S) → (set_len f n s).0 ≡ ok tt → length_of f (set_len f n s).1 ≡ n

module _ {S F : Type 0} (c : Constants) (preallocate : F → Fstore → S → Fcntl × S)
    (allocation_state : F → Io S AllocationState) (metadata_len : F → Io S ℕ)
    (set_len : F → ℕ → Io S (Unit {0}))
    (laws : PreallocateLaws preallocate allocation_state metadata_len set_len) where
  allocate_space_keeps :
      (f : F) (a : AllocationState) (n : ℕ) (s : S)
      → laws.length_of f (allocate_space_with_state c (preallocate f) a n s).1 ≡ laws.length_of f s
  unfolding allocate_space_with_state
  allocate_space_keeps f a n s = grind (arith, laws.keeps_length)

  abbrev sys : Sys S F
  unfolding preallocate_sys
  sys = preallocate_sys c preallocate allocation_state metadata_len set_len

  preallocate_LengthLaws : LengthLaws sys
  unfolding preallocate_sys
  preallocate_LengthLaws = record {
    length_of = laws.length_of;
    state_reads = laws.state_reads;
    space_grows = λ f a n s h. omega (arith, allocate_space_keeps f a n s);
    space_extends = λ f a n s h _. cc;
    metadata_reads = laws.metadata_reads;
    set_len_sets = laws.set_len_sets;
  }

  -- On macOS, where a reservation keeps the length and the other calls read and set it as
  -- documented: after a successful allocation the file is at least as long as was asked for, and
  -- as it was before.
  pub preallocate_extends :
      (f : F) (n : ℕ) (s : S)
      → (allocate (preallocate_sys c preallocate allocation_state metadata_len set_len) f n s).0
        ≡ ok tt
      → let s' =
          (allocate
            (preallocate_sys c preallocate allocation_state metadata_len set_len)
            f
            n
            s).1 in
        (n ≤ laws.length_of f s') × (laws.length_of f s ≤ laws.length_of f s')
  unfolding preallocate_sys preallocate_LengthLaws
  preallocate_extends f n s h = allocate_extends sys preallocate_LengthLaws f n s h
