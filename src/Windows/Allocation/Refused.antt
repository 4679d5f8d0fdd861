-- ===== src/Windows/Allocation/Refused.antt =====
-- Files whose reservation Windows cannot prove are refused before anything is changed.
use fs2_turbo.Base.{
  ℕ, ◌<◌, ◌≤◌, ◌≡◌, ◌≢◌, ◌⊎◌, String, ErrorKind, custom, ok, err, bit_and, bit_or, ◌==◌,
  if◌then◌else◌, arith,
}
use fs2_turbo.Allocation.{AllocationState}
use fs2_turbo.Windows.Overlapped.{EventSys}
use fs2_turbo.Windows.Control.{ControlConstants, ControlSys}
use fs2_turbo.Windows.Allocation.{
  Attributes, FileSys, allocate, allocate_with_attributes, allocate_with_attributes_result,
  file_attributes_and_state,
}

module _ (a : Attributes) (attributes : ℕ) where
  -- Offline, or recalled when its data is read or when it is opened.
  abbrev pub IsRecalled : Type 0
  IsRecalled =
      bit_and attributes (bit_or (bit_or a.offline a.recall_on_data_access) a.recall_on_open) ≢ 0

  abbrev pub IsCompressed : Type 0
  IsCompressed = bit_and attributes a.compressed ≢ 0

module _ {S F : Type 0} (a : Attributes) (c : ControlConstants) (events : EventSys S)
    (controls : ControlSys S F) (sys : FileSys S F) where
  -- A request for a byte or more, on a file whose attributes say offline, recalled or compressed,
  -- fails as unsupported, and the system is as the two attribute queries left it.
  pub refused_unchanged :
      (f : F) (n : ℕ) (s : S) {attributes : ℕ} {state : AllocationState}
      → 0 < n
      → (file_attributes_and_state a c events controls sys f s).0 ≡ ok (attributes, state)
      → IsRecalled a attributes ⊎ IsCompressed a attributes
      → (message : String) × (allocate a c events controls sys f n s ≡ (
        err (custom ErrorKind.unsupported message),
        (file_attributes_and_state a c events controls sys f s).1,
      ))
  unfolding allocate allocate_with_attributes_result allocate_with_attributes
  refused_unchanged f n s {attributes} p e why = (
    if bit_and attributes (bit_or (bit_or a.offline a.recall_on_data_access) a.recall_on_open) == 0
        then "Windows cannot prove full reservation for a compressed file"
        else "Windows cannot prove full reservation for an offline or recall-on-access file",
    ground arith,
  )

  -- An ordinary file that is long enough already costs the two queries and no more.
  pub satisfied_unchanged :
      (f : F) (n : ℕ) (s : S) {attributes : ℕ} {state : AllocationState}
      → (file_attributes_and_state a c events controls sys f s).0 ≡ ok (attributes, state)
      → ¬ IsRecalled a attributes
      → ¬ IsCompressed a attributes
      → bit_and attributes a.sparse_file ≡ 0
      → n ≤ state.file_size
      → 0 < n
      → allocate a c events controls sys f n s
        ≡ (ok tt, (file_attributes_and_state a c events controls sys f s).1)
  unfolding allocate allocate_with_attributes_result allocate_with_attributes
  satisfied_unchanged f n s e r k sparse h p = ground arith
