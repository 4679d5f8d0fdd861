-- ===== src/Windows/Allocation/Length.antt =====
-- A successful allocation on Windows leaves the file long enough and never shorter, on every route.
use fs2_turbo.Base.{ℕ, pos, ◌≤◌, ◌≡◌, ◌≢◌, true, ok, Result-cases, inl, inr, max, eqb_ℤ_iff, arith}
use fs2_turbo.Allocation.{AllocationState}
use fs2_turbo.Windows.Overlapped.{EventSys}
use fs2_turbo.Windows.Control.{
  ControlConstants, ControlSys, set_sparse_file, clear_sparse_file, requested_range_is_allocated,
}
use fs2_turbo.Windows.Control.Keeps.{
  CallsKeep, set_sparse_keeps, clear_sparse_keeps, range_query_keeps,
}
use fs2_turbo.Windows.Allocation.Sparse.{reserve_sparse_range_keeps}
use fs2_turbo.Windows.Allocation.{
  Attributes, FileSys, extend_file_length, allocate_regular_space, allocate_sparse_space,
  reserve_sparse_range, allocate_with_attributes, allocate_with_attributes_result, allocate,
  file_attributes_and_state,
}

-- How the calls treat the length of a file, for a caller that owns its changes.
pub record LengthLaws {S F : Type 0} (events : EventSys S) (controls : ControlSys S F)
    (sys : FileSys S F) : Type 0 where
  pub length_of : F → S → ℕ
  pub basic_keeps : (f : F) (s : S) → length_of f (sys.basic_info f s).1 ≡ length_of f s
  pub standard_keeps : (f : F) (s : S) → length_of f (sys.standard_info f s).1 ≡ length_of f s
  pub standard_reads :
      (f : F) (s : S)
      → (sys.standard_info f s).0.call.result ≢ pos 0
      → (sys.standard_info f s).0.end_of_file ≡ pos (length_of f s)
  pub metadata_keeps : (f : F) (s : S) → length_of f (sys.metadata_len f s).1 ≡ length_of f s
  pub metadata_reads : (f : F) (s : S) (n : ℕ) → (sys.metadata_len f s).0 ≡ ok n → n ≡ length_of f s
  pub set_len_sets :
      (f : F) (n : ℕ) (s : S)
      → (sys.set_len f n s).0 ≡ ok tt
      → length_of f (sys.set_len f n s).1 ≡ n
  -- An allocation below the length cuts the file; one that covers it does not.
  pub allocation_keeps :
      (f : F) (n : ℕ) (s : S)
      → length_of f s ≤ n
      → length_of f (sys.set_allocation f (pos n) s).1 ≡ length_of f s
  pub controls_keep : (f : F) → CallsKeep events controls (length_of f)

module _ {S F : Type 0} (a : Attributes) (c : ControlConstants) (events : EventSys S)
    (controls : ControlSys S F) (sys : FileSys S F) (laws : LengthLaws events controls sys) where
  open laws use {length_of}

  extend_extends :
      (f : F) (n : ℕ) (s : S)
      → (extend_file_length a c events controls sys f n s).0 ≡ ok tt
      → length_of f (extend_file_length a c events controls sys f n s).1 ≡ max n (length_of f s)
  unfolding extend_file_length
  extend_extends f n s h = elim (Result-cases (sys.metadata_len f s).0) [
    | inl (m, e) ↦ ground (
      arith,
      laws.metadata_keeps f s,
      laws.metadata_reads f s m e,
      laws.set_len_sets f n (sys.metadata_len f s).1,
    )
    | inr (x, e) ↦ ground arith
  ]

  regular_extends :
      (f : F) (state : AllocationState) (n : ℕ) (s : S)
      → state.file_size ≡ length_of f s
      → (allocate_regular_space a c events controls sys f state n s).0 ≡ ok tt
      → length_of f (allocate_regular_space a c events controls sys f state n s).1
        ≡ max n (length_of f s)
  unfolding allocate_regular_space
  regular_extends f state n s o h =
      let target = max n state.file_size in
      ground (
        arith,
        laws.allocation_keeps f target s,
        extend_extends f target (sys.set_allocation f (pos target) s).1,
      )

  reserve_keeps :
      (f : F) (n : ℕ) (s : S)
      → length_of f (reserve_sparse_range a c events controls sys f n s).1 ≡ length_of f s
  unfolding reserve_sparse_range
  reserve_keeps f n s =
      let keep = laws.controls_keep f in
      reserve_sparse_range_keeps (requested_range_is_allocated c events controls f n)
        (clear_sparse_file c events controls f) (set_sparse_file c events controls f true)
        (length_of f) (range_query_keeps c events controls (length_of f) keep f n)
        (clear_sparse_keeps c events controls (length_of f) keep f)
        (set_sparse_keeps c events controls (length_of f) keep f true) s

  sparse_extends :
      (f : F) (n : ℕ) (s : S)
      → (allocate_sparse_space a c events controls sys f n s).0 ≡ ok tt
      → length_of f (allocate_sparse_space a c events controls sys f n s).1 ≡ max n (length_of f s)
  unfolding allocate_sparse_space
  sparse_extends f n s h = ground (
    arith,
    extend_extends f n s,
    reserve_keeps f n (extend_file_length a c events controls sys f n s).1,
  )

  with_attributes_extends :
      (f : F) (n attributes : ℕ) (state : AllocationState) (s : S)
      → state.file_size ≡ length_of f s
      → (allocate_with_attributes a c events controls sys f n attributes state s).0 ≡ ok tt
      → length_of f (allocate_with_attributes a c events controls sys f n attributes state s).1
        ≡ max n (length_of f s)
  unfolding allocate_with_attributes
  with_attributes_extends f n attributes state s o h =
      ground (arith, extend_extends f n s, regular_extends f state n s o, sparse_extends f n s)

  query_reads :
      (f : F) (s : S) {attributes : ℕ} {state : AllocationState}
      → (file_attributes_and_state a c events controls sys f s).0 ≡ ok (attributes, state)
      → state.file_size ≡ length_of f s
  unfolding file_attributes_and_state
  query_reads f s e =
      let basic = sys.basic_info f s in
      ground (
        arith,
        laws.basic_keeps f s,
        laws.standard_reads f basic.1,
        eqb_ℤ_iff (sys.standard_info f basic.1).0.call.result (pos 0),
      )

  query_keeps :
      (f : F) (s : S)
      → length_of f (file_attributes_and_state a c events controls sys f s).1 ≡ length_of f s
  unfolding file_attributes_and_state
  query_keeps f s =
      ground (arith, laws.basic_keeps f s, laws.standard_keeps f (sys.basic_info f s).1)

  -- For a caller that owns the changes of a file's length, on calls that treat the length as
  -- documented: after a successful allocation on Windows, by whichever route, the length is the
  -- larger of the length asked for and the length before.
  pub allocate_exact :
      (f : F) (n : ℕ) (s : S)
      → (allocate a c events controls sys f n s).0 ≡ ok tt
      → length_of f (allocate a c events controls sys f n s).1 ≡ max n (length_of f s)
  unfolding allocate allocate_with_attributes_result
  allocate_exact f n s h =
      let asked = file_attributes_and_state a c events controls sys f s in
      elim (Result-cases asked.0) [
        | inl ((attributes, state), e) ↦ ground (
          arith,
          query_reads f s e,
          query_keeps f s,
          with_attributes_extends f n attributes state asked.1,
        )
        | inr (x, e) ↦ ground arith
      ]
