-- ===== src/Windows/Stats/Space.antt =====
-- Resolving a path to a volume and asking its providers: src/windows/stats/mod.rs and the rest of
-- src/windows/stats/space.rs.
pub mod Query
pub mod Routes
pub mod Roots
use fs2_turbo.Base.{
  ℕ, ℤ, ◌+◌, leb, eqb_ℤ, ◌&&◌, ◌||◌, Bool, true, false, Error, raw_os_error, Option, none, some,
  List, Result, ok, err, length, replicate, get_or, if◌then◌else◌,
}
use mathlib.Core.Option
use fs2_turbo.Base.Io.{Io, lift, ◌>>=◌}
use fs2_turbo.Stats.Snapshot.{SpaceKind}
use fs2_turbo.Stats.Windows.{FilesystemCounters, space as counters_space}
use fs2_turbo.Windows.Path.{
  Call, with_wide_path, valid_drive_root_components, copy_exact_drive_root, volume_path,
}
use fs2_turbo.Windows.Stats.Provider.{FallbackReason, ProviderOutcome}
use fs2_turbo.Windows.Stats.Modern.{Provider, HresultConstants, modern_statvfs_with}
use fs2_turbo.Windows.Stats.Legacy.{LegacySys, legacy_space, legacy_statvfs}
use fs2_turbo.Windows.Stats.Handle.{
  AttributeConstants, HandleSys, DirectSpace, direct_space, handle_space,
}

-- The codes that mean that a volume could not be resolved.
pub record ResolutionConstants : Type 0 where
  pub bad_netpath : ℤ
  pub bad_pathname : ℤ
  pub directory : ℤ
  pub invalid_drive : ℤ
  pub invalid_name : ℤ
  pub invalid_parameter : ℤ
  pub path_not_found : ℤ

-- The Windows API as the statistics use it. `provider` is what the lookup of the modern call in
-- kernel32 gave, which the crate caches for the life of the process.
pub record SpaceSys (S P H : Type 0) : Type 0 where
  pub legacy : LegacySys S
  pub handle : HandleSys S P H
  pub encode_wide : P → List ℕ
  pub get_volume_path_name : List ℕ → List ℕ → S → (Call × List ℕ) × S
  pub provider : Option (Provider S)
  pub nt_status_to_dos_error : ℤ → ℕ
  pub hresults : HresultConstants
  pub attributes : AttributeConstants
  pub resolution : ResolutionConstants

abbrev pub zero_root : List ℕ
zero_root = replicate 261 0

unfoldable pub is_volume_resolution_error : ResolutionConstants → Error → Bool
is_volume_resolution_error c error = elim (raw_os_error error) [
  | none ↦ false
  | some code ↦
      eqb_ℤ code c.bad_netpath
      || eqb_ℤ code c.bad_pathname
      || eqb_ℤ code c.directory
      || eqb_ℤ code c.invalid_drive
      || eqb_ℤ code c.invalid_name
      || eqb_ℤ code c.invalid_parameter
      || eqb_ℤ code c.path_not_found
]

unfoldable pub exact_root_value : ResolutionConstants → Result ℕ → Result (ProviderOutcome ℕ)
unfolding is_volume_resolution_error
exact_root_value c (ok value) = ok (ProviderOutcome.value value)
exact_root_value c (err error) =
    if is_volume_resolution_error c error
    then ok (ProviderOutcome.unavailable FallbackReason.volume_resolution)
    else err error

unfoldable pub appears_to_be_drive_root : List ℕ → Bool
appears_to_be_drive_root path =
    leb 4 (length path)
    && valid_drive_root_components (get_or 0 path 0) (get_or 0 path 1) (get_or 0 path 2)
        (get_or 0 path 3)

module _ {S P H : Type 0} (sys : SpaceSys S P H) where
  unfoldable pub modern_statvfs : List ℕ → Io S (ProviderOutcome FilesystemCounters)
  modern_statvfs root_path =
      modern_statvfs_with sys.hresults sys.nt_status_to_dos_error root_path sys.provider

  unfoldable pub root_space_with :
      List ℕ → SpaceKind → Result (ProviderOutcome FilesystemCounters) → Io S ℕ
  root_space_with root_path kind (ok (ProviderOutcome.value counters)) s =
      (counters_space counters kind, s)
  root_space_with root_path kind (ok (ProviderOutcome.unavailable reason)) s =
      legacy_space sys.legacy root_path kind s
  root_space_with root_path kind (err e) s = (err e, s)

  -- `root_space_with(.., modern_statvfs_with(..))`, as the source calls it in three places.
  unfoldable pub root_space : List ℕ → SpaceKind → Io S ℕ
  root_space root_path kind s =
      let (modern, s') = modern_statvfs root_path s in root_space_with root_path kind modern s'

  unfoldable pub statvfs_root_with :
      List ℕ → ProviderOutcome FilesystemCounters → Io S FilesystemCounters
  statvfs_root_with root_path (ProviderOutcome.value counters) s = (ok counters, s)
  statvfs_root_with root_path (ProviderOutcome.unavailable reason) s =
      legacy_statvfs sys.legacy root_path s

  unfoldable pub statvfs_root : List ℕ → Io S FilesystemCounters
  statvfs_root root_path = do modern ← modern_statvfs root_path; statvfs_root_with root_path modern

  -- The volume's root, asked by its path.
  unfoldable pub volume_space : List ℕ → SpaceKind → Io S ℕ
  volume_space path kind = do
    root_path ← volume_path sys.get_volume_path_name path zero_root
    root_space root_path kind

  unfoldable pub after_exact_root : List ℕ → SpaceKind → ProviderOutcome ℕ → Io S ℕ
  after_exact_root path kind (ProviderOutcome.value value) = lift (ok value)
  after_exact_root path kind (ProviderOutcome.unavailable reason) = volume_space path kind

  unfoldable pub space_after_exact_root : List ℕ → SpaceKind → Result ℕ → Io S ℕ
  unfolding exact_root_value
  space_after_exact_root path kind exact_root = do
    outcome ← lift (exact_root_value sys.resolution exact_root)
    after_exact_root path kind outcome

  unfoldable pub exact_root_space : List ℕ → SpaceKind → List ℕ → Io S ℕ
  exact_root_space path kind root_path s =
      let (exact_root, s') = root_space root_path kind s in
      space_after_exact_root path kind exact_root s'

  -- `none` is `Ok(None)`: the path is no drive root.
  unfoldable pub exact_root_space_from_path : List ℕ → SpaceKind → Option (Io S ℕ)
  exact_root_space_from_path path kind =
      if appears_to_be_drive_root path
      then Option.map (exact_root_space path kind) (copy_exact_drive_root path zero_root)
      else none

  unfoldable pub or_volume_space : List ℕ → SpaceKind → Option (Io S ℕ) → Io S ℕ
  or_volume_space path kind (some exact) = exact
  or_volume_space path kind none = volume_space path kind

  unfoldable pub space_after_narrow_queries : List ℕ → SpaceKind → Io S ℕ
  unfolding or_volume_space
  space_after_narrow_queries path kind =
      or_volume_space path kind (exact_root_space_from_path path kind)

  -- A hit is returned; otherwise the next query is made.
  unfoldable pub or_else : DirectSpace × S → Io S ℕ → Result ℕ × S
  or_else (DirectSpace.hit value, s) next = (ok value, s)
  or_else (DirectSpace.unavailable, s) next = next s

  unfoldable pub space_with_wide_path : List ℕ → P → SpaceKind → Io S ℕ
  unfolding or_else
  space_with_wide_path path_utf16 path kind s =
      or_else (direct_space sys.legacy path_utf16 kind s) λ s'.
        or_else (handle_space sys.attributes sys.handle path_utf16 path kind s')
          (space_after_narrow_queries path_utf16 kind)

  unfoldable pub space : P → SpaceKind → Io S ℕ
  space path kind =
      with_wide_path (sys.encode_wide path) λ path_utf16. space_with_wide_path path_utf16 path kind
