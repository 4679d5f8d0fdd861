-- ===== src/Process/Security.antt =====
-- The security descriptors of the capture directories on Windows:
-- tools/fs2-dev/src/process/windows_security.rs. This file holds the identities and the access control
-- lists as the Windows calls hand them out.
pub mod Private
pub mod Ancestor
pub mod Descriptor
pub mod Path
pub mod Ancestry
pub mod Identity
pub mod Create
use fs2_turbo.Base.{
  ℕ, String, Bool, true, false, not, ◌&&◌, ◌||◌, ◌==◌, ltb, if◌then◌else◌, bit_and, bit_or, ℤ, pos,
  eqb_ℤ, List, [], ◌∷◌, Option, none, some, ErrorKind, Error, os, custom, Result, ok, err,
}
use fs2_turbo.Base.Text.{concat}

abbrev pub invalid_data : String → Error
invalid_data message = custom ErrorKind.invalid_data message

-- A native call: its result, the last error behind it, and what it has filled in.
pub record NativeCall {ℓ} (A : Type ℓ) : Type ℓ where
  pub result : ℤ
  pub last_os_error : ℤ
  pub value : A

unfoldable pub check_win32 {ℓ} : {A : Type ℓ} → NativeCall A → Result A
check_win32 call = if eqb_ℤ call.result (pos 0) then err (os call.last_os_error) else ok call.value

unfoldable pub check_win32_status : ℕ → Result (Unit {0})
check_win32_status status = if status == 0 then ok tt else err (os (pos status))

-- The bytes of a security identifier; a pointer to one may be null.
abbrev pub Sid : Type 0
Sid = List ℕ

-- An entry, with the identifier that starts at `SidStart`.
pub record Ace : Type 0 where
  pub ace_type : ℕ
  pub ace_flags : ℕ
  pub ace_size : ℕ
  pub mask : ℕ
  pub sid : Sid

-- `GetAclInformation` and `GetAce`, whose pointer may be null.
pub record Acl : Type 0 where
  pub ace_count : NativeCall ℕ
  pub get_ace : ℕ → NativeCall (Option Ace)

abbrev pub access_allowed_ace_type_value : ℕ
access_allowed_ace_type_value = 0

abbrev pub object_inherit_ace : ℕ
object_inherit_ace = 1

abbrev pub container_inherit_ace : ℕ
container_inherit_ace = 2

abbrev pub inherit_only_ace : ℕ
inherit_only_ace = 8

abbrev pub private_ace_flags : ℕ
private_ace_flags = bit_or object_inherit_ace container_inherit_ace

abbrev pub file_all_access : ℕ
file_all_access = 0x1F01FF

-- DELETE, FILE_DELETE_CHILD, WRITE_DAC, WRITE_OWNER and GENERIC_ALL.
abbrev pub destructive_namespace_access : ℕ
destructive_namespace_access =
    bit_or 0x10000 (bit_or 0x40 (bit_or 0x40000 (bit_or 0x80000 0x10000000)))

-- FILE_ADD_FILE, FILE_WRITE_ATTRIBUTES and GENERIC_WRITE.
abbrev pub retained_path_mutation_access : ℕ
retained_path_mutation_access =
    bit_or destructive_namespace_access (bit_or 0x2 (bit_or 0x100 0x40000000))

-- FILE_ADD_SUBDIRECTORY, and FILE_APPEND_DATA, which is the same bit.
abbrev pub descendant_directory_mutation_access : ℕ
descendant_directory_mutation_access = bit_or retained_path_mutation_access 0x4

abbrev pub descendant_file_mutation_access : ℕ
descendant_file_mutation_access = bit_or retained_path_mutation_access 0x4

-- The sizes of ACE_HEADER, of the mask behind it, and of ACCESS_ALLOWED_ACE.
abbrev pub ace_header_size : ℕ
ace_header_size = 4

abbrev pub mask_size : ℕ
mask_size = 4

abbrev pub access_allowed_ace_size : ℕ
access_allowed_ace_size = 12

abbrev pub trusted_installer_sid : Sid
trusted_installer_sid =
    1 ∷ 6 ∷ 0 ∷ 0 ∷ 0 ∷ 0 ∷ 0 ∷ 5 ∷ 80 ∷ 0 ∷ 0 ∷ 0 ∷ 181 ∷ 137 ∷ 251 ∷ 56 ∷ 25 ∷ 132 ∷ 194 ∷ 203
    ∷ 92 ∷ 108 ∷ 35 ∷ 109 ∷ 87 ∷ 0 ∷ 119 ∷ 110 ∷ 192 ∷ 2 ∷ 100 ∷ 135 ∷ []

pub data AncestorRole : Type 0 where
  directory volume_root : AncestorRole

abbrev pub is_directory : AncestorRole → Bool
is_directory directory = true
is_directory volume_root = false

-- The identities of `PrivateSecurity`.
pub record PrivateSecurity : Type 0 where
  pub owner : Sid
  pub system : Option Sid
  pub administrators : Sid

unfoldable pub denied_ace : ℕ → Bool
denied_ace ace_type = ace_type == 1 || ace_type == 6 || ace_type == 10 || ace_type == 12

unfoldable pub private_acl_error : String → Error
private_acl_error path = invalid_data (
    concat
      ("capture private directory ACL is not limited to the current user and SYSTEM: " ∷ path ∷ []))

unfoldable pub trusted_ancestor_error : String → Error
trusted_ancestor_error path = invalid_data (
    concat (
      "capture ancestry permits replacement or reparse mutation outside the current user, SYSTEM, or Administrators: "
      ∷ path ∷ []))

unfoldable pub require_ace_pointer : Option Ace → Error → Result Ace
require_ace_pointer (some ace) error = ok ace
require_ace_pointer none error = err error

-- `EqualSid` is the system's.
module _ (equal_sid : Sid → Sid → Bool) where
  unfoldable pub sid_matches : Option Sid → Sid → Bool
  sid_matches none expected = false
  sid_matches (some candidate) expected = equal_sid candidate expected

  unfoldable pub sid_bytes_equal : Sid → Sid → Bool
  unfolding sid_matches
  sid_bytes_equal left right = sid_matches (some left) right

  -- `is_some_and` of the system's identity.
  unfoldable pub matches_system : Option Sid → PrivateSecurity → Bool
  unfolding sid_matches
  matches_system sid expected = elim expected.system [
    | some system ↦ sid_matches sid system
    | none ↦ false
  ]

  unfoldable pub trusted_sid : Option Sid → PrivateSecurity → AncestorRole → Bool
  unfolding sid_matches matches_system
  trusted_sid sid expected role =
      sid_matches sid expected.owner
      || matches_system sid expected
      || sid_matches sid expected.administrators
      || (not (is_directory role) && sid_matches sid trusted_installer_sid)
