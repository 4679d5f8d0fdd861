-- ===== src/Process/Security/Ancestry.antt =====
-- The directories above a capture directory, which are held open while it is used:
-- `guard_trusted_directory_ancestry` of tools/fs2-dev/src/process/windows_security.rs.
pub mod Held
pub mod Covered
use fs2_turbo.Base.{
  ℕ, zero, suc, ◌+◌, String, Bool, true, false, not, ◌&&◌, ◌||◌, ◌==◌, leb, if◌then◌else◌, bit_and,
  bit_or, ℤ, pos, List, [], ◌∷◌, ◌++◌, Option, none, some, Error, os, fault, Result, ok, err,
  map_ok,
}
use fs2_turbo.Base.Io.{Io, lift, ◌>>=◌, ◌>>◌}
use Prim.Native.Char.{Char}
use fs2_turbo.Base.Text.{concat}
use fs2_turbo.Process.{OsErrors, display}
use fs2_turbo.Process.Security.{
  Sid, NativeCall, PrivateSecurity, AncestorRole, check_win32, invalid_data,
}
use fs2_turbo.Process.Security.Descriptor.{
  Descriptor, descriptor_probe_size, verify_private_descriptor, verify_trusted_descriptor,
}
use fs2_turbo.Process.Security.Identity.{Security, IdentityCalls, DescriptorCalls, new}
use fs2_turbo.Process.Security.Path.{
  Component, WindowsPath, reject_ambiguous_path_with, require_local_fixed_volume_with,
}

abbrev pub file_attribute_reparse_point : ℕ
file_attribute_reparse_point = 0x400

-- FILE_READ_ATTRIBUTES, FILE_TRAVERSE and READ_CONTROL.
abbrev pub read_access : ℕ
read_access = bit_or 0x80 (bit_or 0x20 0x20000)

-- The Windows calls, and what paths and `std` answer. A path that is being built is its components. `D`
-- is an open directory; `close` is its drop.
pub record AncestrySystem (S D A R : Type 0) : Type 0 where
  pub identities : IdentityCalls S
  pub descriptors : DescriptorCalls A R
  pub equal_sid : Sid → Sid → Bool
  pub os_errors : OsErrors
  pub from_code : ℕ → Char
  pub to_string_lossy : List ℕ → String
  pub show : List Component → String
  pub drive_type : List ℕ → ℕ
  pub symlink_attributes : List Component → Io S ℕ
  pub create_file : List Component → ℕ → S → NativeCall D × S
  pub attributes : D → S → NativeCall ℕ × S
  pub close : D → S → S
  pub security_probe : D → S → (ℤ × ℕ × ℤ) × S
  pub read_security : D → ℕ → S → NativeCall Descriptor × S
  pub final_path : D → S → (ℕ × WindowsPath × ℤ) × S
  pub identity : D → S → NativeCall (ℕ × List ℕ) × S

-- `Path::parent` of a path that is built from the components of another.
abbrev pub has_parent : List Component → Bool
has_parent [] = false
has_parent (Component.prefix p ∷ []) = false
has_parent (Component.root_dir ∷ []) = false
has_parent (Component.cur_dir ∷ []) = true
has_parent (Component.parent_dir ∷ []) = true
has_parent (Component.normal name ∷ []) = true
has_parent (c ∷ next ∷ components) = has_parent (next ∷ components)

unfoldable pub require_no_reparse_attributes : ℕ → String → String → Result (Unit {0})
require_no_reparse_attributes attributes path context =
    if bit_and attributes file_attribute_reparse_point == 0
    then ok tt
    else err (invalid_data (concat (context ∷ " is a reparse point: " ∷ path ∷ [])))

-- The length of the buffer of `GetFinalPathNameByHandleW`.
abbrev pub path_buffer : ℕ
path_buffer = 32768

abbrev pub same_bytes : List ℕ → List ℕ → Bool
same_bytes [] [] = true
same_bytes (a ∷ as') (b ∷ bs) = a == b && same_bytes as' bs
same_bytes [] (b ∷ bs) = false
same_bytes (a ∷ as') [] = false

abbrev pub last_of {ℓ} : {A : Type ℓ} → List A → Option A
last_of [] = none
last_of (a ∷ []) = some a
last_of (a ∷ b ∷ rest) = last_of (b ∷ rest)

-- The drop of a directory on an error.
abbrev pub drop_on_error : {S : Type 0} → (S → S) → Result (Unit {0}) → S → S
drop_on_error close (ok _) s = s
drop_on_error close (err e) s = close s

module _ {S D A R : Type 0} (W : AncestrySystem S D A R) where
  abbrev pub private_security : Io S (Security A R)
  private_security = new W.identities W.equal_sid W.descriptors

  unfoldable pub native {ℓ} : {A : Type ℓ} → (S → NativeCall A × S) → Io S A
  unfolding check_win32
  native call s = let (c, s') = call s in (check_win32 c, s')

  -- A directory that does not pass a check is closed.
  unfoldable pub checked : (D → Io S (Unit {0})) → D → Io S D
  checked check directory s =
      let (checked, s') = check directory s in
      (map_ok (λ _. directory) checked, drop_on_error (W.close directory) checked s')

  unfoldable pub check_attributes : List Component → D → Io S (Unit {0})
  unfolding native require_no_reparse_attributes
  check_attributes path directory = do
    attributes ← native (W.attributes directory)
    lift (require_no_reparse_attributes attributes (W.show path) "capture private directory")

  unfoldable pub open_directory : List Component → ℕ → Io S D
  unfolding native checked check_attributes
  open_directory path access = do
    directory ← native (W.create_file path access)
    checked (check_attributes path) directory

  unfoldable pub reject_reparse_metadata : List Component → Io S (Unit {0})
  unfolding require_no_reparse_attributes
  reject_reparse_metadata path = do
    attributes ← W.symlink_attributes path
    lift (require_no_reparse_attributes attributes (W.show path) "capture directory ancestry")

  abbrev pub probe_size : ℤ × ℕ × ℤ → Result ℕ
  probe_size (probe, required, error) = descriptor_probe_size probe required (os error)

  unfoldable pub read_security_descriptor : D → Io S Descriptor
  unfolding native descriptor_probe_size
  read_security_descriptor directory = do
    required ← λ s. let (probe, s') = W.security_probe directory s in (probe_size probe, s')
    native (W.read_security directory required)

  unfoldable pub verify_private_directory : List Component → PrivateSecurity → D → Io S (Unit {0})
  unfolding read_security_descriptor verify_private_descriptor
  verify_private_directory path expected directory = do
    descriptor ← read_security_descriptor directory
    lift (verify_private_descriptor W.equal_sid (W.show path) expected descriptor)

  unfoldable pub verify_trusted_ancestor :
      List Component → PrivateSecurity → AncestorRole → D → Io S (Unit {0})
  unfolding read_security_descriptor verify_trusted_descriptor
  verify_trusted_ancestor path expected role directory = do
    descriptor ← read_security_descriptor directory
    lift (verify_trusted_descriptor W.equal_sid (W.show path) expected role descriptor)

  unfoldable pub open_ancestor : List Component → AncestorRole → Io S D
  unfolding new open_directory checked verify_trusted_ancestor
  open_ancestor path role = do
    security ← private_security
    directory ← open_directory path read_access
    checked (verify_trusted_ancestor path security.identities role) directory

  unfoldable pub open_ancestry_directory : List Component → Io S D
  unfolding reject_reparse_metadata open_ancestor
  open_ancestry_directory path =
      reject_reparse_metadata path
      >> open_ancestor path
          (if has_parent path then AncestorRole.directory else AncestorRole.volume_root)

  unfoldable pub final_directory_path_result : ℕ × WindowsPath × ℤ → Result WindowsPath
  unfolding require_local_fixed_volume_with
  final_directory_path_result (length, path, error) =
      if length == 0
      then err (os error)
      else if leb path_buffer length
      then err (invalid_data "physical directory path exceeds the Windows path limit")
      else map_ok (λ _. path)
          (require_local_fixed_volume_with W.from_code W.to_string_lossy true W.drive_type
            "physical directory ancestry" path)

  unfoldable pub final_directory_path : D → Io S WindowsPath
  unfolding final_directory_path_result
  final_directory_path directory s =
      let (answer, s') = W.final_path directory s in (final_directory_path_result answer, s')

  unfoldable pub directory_identity : D → Io S (ℕ × List ℕ)
  unfolding native
  directory_identity directory = native (W.identity directory)

  abbrev pub same_identity : ℕ × List ℕ → ℕ × List ℕ → Result (Unit {0})
  same_identity (volume, file) (volume', file') =
      if volume == volume' && same_bytes file file'
      then ok tt
      else err (invalid_data "drive alias target changed during admission")

  -- The identity of the target is asked for first, but its error is looked at last.
  unfoldable pub retain_target : D → List D → List D → Option D → Io S (List D)
  unfolding directory_identity
  retain_target directory ancestry held none s =
      (err (invalid_data "physical drive ancestry is empty"), s)
  retain_target directory ancestry held (some target) s =
      let (target_identity, s₁) = directory_identity target s in
      (do
        directory_key ← directory_identity directory
        target_key ← lift target_identity
        lift (same_identity directory_key target_key)
        lift (ok (held ++ ancestry)))
        s₁

  unfoldable pub retain_matching_ancestry : D → List D → List D → Io S (List D)
  unfolding retain_target
  retain_matching_ancestry directory ancestry held =
      retain_target directory ancestry held (last_of ancestry)

  unfoldable pub kept : List Component → Result D → Result D
  unfolding display
  kept current (ok directory) = ok directory
  kept current (err error) = err (
      invalid_data (
        concat (
          "unable to retain capture directory ancestry "
          ∷ W.show current
          ∷ ": "
          ∷ display W.os_errors error
          ∷ [])))

  unfoldable pub retained : List Component → Io S D
  unfolding open_ancestry_directory kept
  retained current s =
      let (opened, s') = open_ancestry_directory current s in (kept current opened, s')

  -- `guard` is the call of `guard_trusted_directory_ancestry` for the real parents of a drive.
  module _ (guard : WindowsPath → Io S (List D)) where
    unfoldable pub retain_parents : D → List D → WindowsPath → Io S (List D)
    unfolding retain_matching_ancestry
    retain_parents directory held physical =
        if has_parent physical.components
        then (guard physical >>= λ ancestry. retain_matching_ancestry directory ancestry held)
        else lift (ok held)

    unfoldable pub retain_physical_root_ancestry : List Component → D → List D → Io S (List D)
    unfolding retain_parents final_directory_path
    retain_physical_root_ancestry path directory held =
        if has_parent path
        then lift (ok held)
        else final_directory_path directory >>= retain_parents directory held

    -- One more directory is held.
    unfoldable pub hold : List Component → List D → Io S (List D)
    unfolding retained retain_physical_root_ancestry
    hold current held = do
      directory ← retained current
      held' ← retain_physical_root_ancestry current directory held
      lift (ok (held' ++ directory ∷ []))

    unfoldable pub guard_components :
        String → List Component → List D → List Component → Io S (List D)
    unfolding hold
    guard_components shown current held [] = lift (ok held)
    guard_components shown current held (Component.prefix p ∷ components) =
        guard_components shown (current ++ Component.prefix p ∷ []) held components
    guard_components shown current held (Component.cur_dir ∷ components) =
        guard_components shown current held components
    guard_components shown current held (Component.parent_dir ∷ components) =
        lift (
          err
            (invalid_data (concat ("capture directory path may not contain '..': " ∷ shown ∷ []))))
    guard_components shown current held (Component.root_dir ∷ components) =
        hold (current ++ Component.root_dir ∷ []) held >>= λ held'.
        guard_components shown (current ++ Component.root_dir ∷ []) held' components
    guard_components shown current held (Component.normal name ∷ components) =
        hold (current ++ Component.normal name ∷ []) held >>= λ held'.
        guard_components shown (current ++ Component.normal name ∷ []) held' components

  abbrev pub require_absolute : WindowsPath → Result (Unit {0})
  require_absolute path =
      if path.is_absolute
      then ok tt
      else err
          (invalid_data (concat ("capture directory path must be absolute: " ∷ path.display ∷ [])))

  -- The fuel bounds how often a drive is an alias of a directory of another drive.
  unfoldable pub guard_trusted_directory_ancestry : ℕ → Bool → WindowsPath → Io S (List D)
  unfolding reject_ambiguous_path_with guard_components
  guard_trusted_directory_ancestry zero allow path = lift (err fault)
  guard_trusted_directory_ancestry (suc aliases) allow path =
      lift (reject_ambiguous_path_with W.from_code W.to_string_lossy allow path)
      >> (lift (require_absolute path)
          >> guard_components (guard_trusted_directory_ancestry aliases true) path.display [] []
              path.components)
