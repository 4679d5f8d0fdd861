-- ===== src/Allocation/Length.antt =====
-- A successful allocation leaves the file long enough and never shorter than it was, also while
-- cooperating processes let the file grow between the calls.
use fs2_turbo.Base.{
  ℕ, ◌≤◌, ◌≡◌, inl, inr, Bool, true, false, Result-cases, Error, ok, err, refl, arith,
}
use fs2_turbo.Allocation.{
  AllocationState, Sys, extend_file_length_after_snapshot, finish_allocation, allocate_with_state,
  allocate,
}

-- The documented behaviour of the calls on the length of a file. Between the calls it may grow.
pub record LengthLaws {S F : Type 0} (sys : Sys S F) : Type 0 where
  pub length_of : F → S → ℕ
  pub state_reads :
      (f : F) (s : S) (a : AllocationState)
      → (sys.allocation_state f s).0 ≡ ok a
      → (length_of f s ≤ a.file_size) × (a.file_size ≤ length_of f (sys.allocation_state f s).1)
  pub space_grows :
      (f : F) (a : AllocationState) (n : ℕ) (s : S)
      → (sys.allocate_space f a n s).0 ≡ ok tt
      → length_of f s ≤ length_of f (sys.allocate_space f a n s).1
  pub space_extends :
      (f : F) (a : AllocationState) (n : ℕ) (s : S)
      → sys.allocate_space_extends_length ≡ true
      → (sys.allocate_space f a n s).0 ≡ ok tt
      → n ≤ length_of f (sys.allocate_space f a n s).1
  pub metadata_reads :
      (f : F) (s : S) (n : ℕ)
      → (sys.metadata_len f s).0 ≡ ok n
      → (length_of f s ≤ n) × (n ≡ length_of f (sys.metadata_len f s).1)
  pub set_len_sets :
      (f : F) (n : ℕ) (s : S)
      → (sys.set_len f n s).0 ≡ ok tt
      → length_of f (sys.set_len f n s).1 ≡ n

module _ {S F : Type 0} (sys : Sys S F) (laws : LengthLaws sys) where
  open laws use {length_of}

  extend_extends :
      (f : F) (n : ℕ) (s : S)
      → (extend_file_length_after_snapshot sys f n s).0 ≡ ok tt
      → (n ≤ length_of f (extend_file_length_after_snapshot sys f n s).1)
        × (length_of f s ≤ length_of f (extend_file_length_after_snapshot sys f n s).1)
  unfolding extend_file_length_after_snapshot
  extend_extends f n s h = elim (Result-cases (sys.metadata_len f s).0) [
    | inl (m, e) ↦
        ground (arith, laws.metadata_reads f s m e, laws.set_len_sets f n (sys.metadata_len f s).1)
    | inr (x, e) ↦ ground arith
  ]

  finish_extends :
      (f : F) (n observed : ℕ) (can_set_length : Bool) (s : S)
      → observed ≤ length_of f s
      → (can_set_length ≡ true → n ≤ length_of f s)
      → (finish_allocation sys f n observed can_set_length s).0 ≡ ok tt
      → (n ≤ length_of f (finish_allocation sys f n observed can_set_length s).1)
        × (length_of f s ≤ length_of f (finish_allocation sys f n observed can_set_length s).1)
  unfolding finish_allocation
  finish_extends f n observed can_set_length s o c h = ground (arith, extend_extends f n s)

  allocate_with_state_extends :
      (f : F) (n : ℕ) (a : AllocationState) (s : S)
      → a.file_size ≤ length_of f s
      → (allocate_with_state sys f n (ok a) s).0 ≡ ok tt
      → (n ≤ length_of f (allocate_with_state sys f n (ok a) s).1)
        × (length_of f s ≤ length_of f (allocate_with_state sys f n (ok a) s).1)
  unfolding allocate_with_state
  allocate_with_state_extends f n a s o h = ground (
    arith,
    finish_extends f n a.file_size false s,
    laws.space_grows f a n s,
    laws.space_extends f a n s,
    finish_extends f n a.file_size sys.allocate_space_extends_length (sys.allocate_space f a n s).1,
  )

  allocate_with_state_err :
      (f : F) (n : ℕ) (x : Error) (s : S) → (allocate_with_state sys f n (err x) s).0 ≡ err x
  unfolding allocate_with_state
  allocate_with_state_err f n x s = refl

  -- On calls that read, extend and set a length as documented, between which the file may grow:
  -- after a successful allocation the file is at least as long as was asked for, and at least as
  -- long as it was before.
  pub allocate_extends :
      (f : F) (n : ℕ) (s : S)
      → (allocate sys f n s).0 ≡ ok tt
      → (n ≤ length_of f (allocate sys f n s).1)
        × (length_of f s ≤ length_of f (allocate sys f n s).1)
  unfolding allocate
  allocate_extends f n s h = elim (Result-cases (sys.allocation_state f s).0) [
    | inl (a, e) ↦ ground (
      arith,
      laws.state_reads f s a e,
      allocate_with_state_extends f n a (sys.allocation_state f s).1,
    )
    | inr (x, e) ↦ ground (arith, allocate_with_state_err f n x (sys.allocation_state f s).1)
  ]
