-- ===== src/Windows/Stats/Handle.antt =====
-- The two narrow queries, by path and by handle, that answer without resolving the volume: the
-- middle of src/windows/stats/space.rs. `P` is an `OsStr`.
pub mod Hits
use fs2_turbo.Base.{
  ℕ, ℤ, pos, suc, ◌+◌, ◌==◌, ltb, eqb_ℤ, not, ◌&&◌, ◌||◌, Bool, true, false, Option, none, some,
  List, [], ◌∷◌, bit_and, bit_or, to_unsigned, checked_mul, wrapping_mul, if◌then◌else◌, length,
  get_or,
}
use fs2_turbo.Stats.Snapshot.{SpaceKind}
use fs2_turbo.Windows.Path.{Call, valid_drive_root_components}
use fs2_turbo.Windows.Stats.Legacy.{BytesCall, LegacySys}

pub data DirectSpace : Type 0 where
  hit : ℕ → DirectSpace
  unavailable : DirectSpace

-- `FILE_FS_FULL_SIZE_INFORMATION`: the unit counts are signed.
pub record FullSizeInformation : Type 0 where
  pub total_units : ℤ
  pub caller_available_units : ℤ
  pub actual_available_units : ℤ
  pub sectors_per_allocation_unit : ℕ
  pub bytes_per_sector : ℕ

pub record AttributeConstants : Type 0 where
  pub invalid_file_attributes : ℕ
  pub device : ℕ
  pub offline : ℕ
  pub recall_on_data_access : ℕ
  pub recall_on_open : ℕ
  pub reparse_point : ℕ
  pub directory : ℕ

pub record HandleSys (S P H : Type 0) : Type 0 where
  pub get_file_attributes : List ℕ → S → ℕ × S
  pub is_absolute : P → Bool
  pub open_handle : P → S → Option H × S
  pub query_volume : H → S → (ℤ × FullSizeInformation) × S
  pub close_handle : H → S → S

unfoldable pub direct_space_result : BytesCall → SpaceKind → DirectSpace
direct_space_result answer kind =
    let value : DirectSpace = elim kind [
      | SpaceKind.free ↦ DirectSpace.hit answer.actual_free
      | SpaceKind.available ↦ DirectSpace.hit answer.caller_available
      | _ ↦ DirectSpace.unavailable
    ] in
    if eqb_ℤ answer.call.result (pos 0)
      || (ltb answer.caller_total answer.caller_available
          || ltb answer.actual_free answer.caller_available)
    then DirectSpace.unavailable
    else value

abbrev pub is_total : SpaceKind → Bool
is_total SpaceKind.total = true
is_total _ = false

abbrev pub is_granularity : SpaceKind → Bool
is_granularity SpaceKind.allocation_granularity = true
is_granularity _ = false

unfoldable pub drive_path_below_root : List ℕ → ℕ → Bool
drive_path_below_root path offset =
    ltb (offset + 4) (length path)
    && valid_drive_root_components (get_or 0 path offset) (get_or 0 path (offset + 1))
        (get_or 0 path (offset + 2)) 0

-- `path.starts_with("\\?\")`, on the code units.
abbrev pub starts_verbatim : List ℕ → Bool
starts_verbatim (a ∷ b ∷ c ∷ d ∷ path) = a == b'\\' && (b == b'\\' && (c == b'?' && d == b'\\'))
starts_verbatim path = false

unfoldable pub handle_space_attributes_decision : Bool → Bool → Bool
handle_space_attributes_decision valid_attributes suitable_attributes =
    valid_attributes && suitable_attributes

module _ (c : AttributeConstants) where
  abbrev pub unsuitable_handle_space_attributes : ℕ
  unsuitable_handle_space_attributes =
      bit_or (bit_or (bit_or c.device c.offline) c.recall_on_data_access) c.recall_on_open

  unfoldable pub handle_space_attributes_eligible : ℕ → SpaceKind → Bool
  unfolding handle_space_attributes_decision
  handle_space_attributes_eligible attributes kind =
      let kind_specific = if is_granularity kind then c.reparse_point else c.directory in
      handle_space_attributes_decision (not (attributes == c.invalid_file_attributes))
        (bit_and attributes (bit_or unsuitable_handle_space_attributes kind_specific) == 0)

-- `u64::try_from` of each count, in turn.
abbrev pub units : ℤ → (ℕ → DirectSpace) → DirectSpace
units value next = elim (to_unsigned value) [ some n ↦ next n | none ↦ DirectSpace.unavailable ]

abbrev pub bytes : Option ℕ → (ℕ → DirectSpace) → DirectSpace
bytes (some n) next = next n
bytes none next = DirectSpace.unavailable

unfoldable pub project_handle_space : ℕ → ℕ → ℕ → SpaceKind → DirectSpace
project_handle_space granularity caller_units actual_free kind =
    bytes (checked_mul granularity caller_units) λ caller_available.
      let value : DirectSpace = elim kind [
        | SpaceKind.free ↦ DirectSpace.hit actual_free
        | SpaceKind.available ↦ DirectSpace.hit caller_available
        | SpaceKind.allocation_granularity ↦ DirectSpace.hit granularity
        | SpaceKind.total ↦ DirectSpace.unavailable
      ] in
      if ltb actual_free caller_available then DirectSpace.unavailable else value

unfoldable pub handle_space_from_info : FullSizeInformation → SpaceKind → DirectSpace
unfolding project_handle_space
handle_space_from_info info kind =
    let granularity = wrapping_mul info.sectors_per_allocation_unit info.bytes_per_sector in
    let counted = units info.actual_available_units λ actual_units.
      units info.caller_available_units λ caller_units. units info.total_units λ total_units.
        if ltb total_units caller_units || ltb actual_units caller_units
        then DirectSpace.unavailable
        else bytes (checked_mul granularity actual_units)
            λ actual_free. project_handle_space granularity caller_units actual_free kind in
    if granularity == 0 then DirectSpace.unavailable else counted

unfoldable pub handle_space_query_result : ℤ × FullSizeInformation → SpaceKind → DirectSpace
unfolding handle_space_from_info
handle_space_query_result answer kind =
    if eqb_ℤ answer.0 (pos 0) then handle_space_from_info answer.1 kind else DirectSpace.unavailable

unfoldable pub direct_space : {S : Type 0} → LegacySys S → List ℕ → SpaceKind → S → DirectSpace × S
unfolding direct_space_result
direct_space legacy path kind s =
    let (answer, s') = legacy.get_disk_free_space_ex path s in
    if is_total kind || is_granularity kind
    then (DirectSpace.unavailable, s)
    else (direct_space_result answer kind, s')

module _ {S P H : Type 0} (c : AttributeConstants) (sys : HandleSys S P H) where
  unfoldable pub allocation_handle_path_eligible : List ℕ → P → Bool
  unfolding drive_path_below_root
  allocation_handle_path_eligible path os_path =
      sys.is_absolute os_path
      && (drive_path_below_root path 0 || (starts_verbatim path && drive_path_below_root path 4))

  -- The scope of the handle: it is closed behind the query.
  unfoldable pub query_opened : SpaceKind → Option H → S → DirectSpace × S
  unfolding handle_space_query_result
  query_opened kind (some handle) s =
      let (answer, s') = sys.query_volume handle s in
      (handle_space_query_result answer kind, sys.close_handle handle s')
  query_opened kind none s = (DirectSpace.unavailable, s)

  unfoldable pub handle_space : List ℕ → P → SpaceKind → S → DirectSpace × S
  unfolding allocation_handle_path_eligible handle_space_attributes_eligible query_opened
  handle_space path os_path kind s =
      let (attributes, s') = sys.get_file_attributes path s in
      let opened = sys.open_handle os_path s' in
      if is_total kind
        || (is_granularity kind && not (allocation_handle_path_eligible path os_path))
      then (DirectSpace.unavailable, s)
      else if not (handle_space_attributes_eligible c attributes kind)
      then (DirectSpace.unavailable, s')
      else query_opened kind opened.0 opened.1
