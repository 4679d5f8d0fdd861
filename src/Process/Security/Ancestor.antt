-- ===== src/Process/Security/Ancestor.antt =====
-- The access control list of an ancestor of a capture directory: `verify_trusted_ancestor_acl` of
-- tools/fs2-dev/src/process/windows_security.rs.
pub mod Trusted
pub mod Rights
use fs2_turbo.Base.{
  ℕ, zero, suc, ◌+◌, String, Bool, true, false, not, ◌&&◌, ◌||◌, ◌==◌, ltb, if◌then◌else◌, bit_and,
  Option, none, some, Error, Result, ok, err, ◌>>=◌, ◌>>◌, fail_if,
}
use fs2_turbo.Process.Security.{
  Sid, Ace, Acl, NativeCall, PrivateSecurity, AncestorRole, is_directory, check_win32, trusted_sid,
  denied_ace, trusted_ancestor_error, require_ace_pointer, access_allowed_ace_type_value,
  access_allowed_ace_size, ace_header_size, mask_size, inherit_only_ace, container_inherit_ace,
  object_inherit_ace, retained_path_mutation_access, descendant_directory_mutation_access,
  descendant_file_mutation_access,
}

unfoldable pub require_ancestor_ace_prefix : Ace → String → Result (Unit {0})
unfolding trusted_ancestor_error
require_ancestor_ace_prefix header path =
    fail_if (ltb header.ace_size (ace_header_size + mask_size)) (trusted_ancestor_error path)

unfoldable pub require_mutating_ancestor_ace : Ace → String → Result (Unit {0})
unfolding trusted_ancestor_error
require_mutating_ancestor_ace header path =
    fail_if
      (not (header.ace_type == access_allowed_ace_type_value)
        || ltb header.ace_size access_allowed_ace_size)
      (trusted_ancestor_error path)

-- `value & bits != 0`.
abbrev pub has_any : ℕ → ℕ → Bool
has_any value bits = not (bit_and value bits == 0)

unfoldable pub mutates_current : Ace → Bool
mutates_current ace =
    not (has_any ace.ace_flags inherit_only_ace) && has_any ace.mask retained_path_mutation_access

unfoldable pub mutates_descendant_directory : AncestorRole → Ace → Bool
mutates_descendant_directory role ace =
    is_directory role
    && has_any ace.ace_flags container_inherit_ace
    && has_any ace.mask descendant_directory_mutation_access

unfoldable pub mutates_descendant_file : AncestorRole → Ace → Bool
mutates_descendant_file role ace =
    is_directory role
    && has_any ace.ace_flags object_inherit_ace
    && has_any ace.mask descendant_file_mutation_access

unfoldable pub mutates : AncestorRole → Ace → Bool
unfolding mutates_current mutates_descendant_directory mutates_descendant_file
mutates role ace =
    mutates_current ace || mutates_descendant_directory role ace || mutates_descendant_file role ace

module _ (equal_sid : Sid → Sid → Bool) (path : String) (expected : PrivateSecurity)
    (role : AncestorRole) where
  -- An entry that lets someone change the path must be the plain permission of a trusted identity.
  unfoldable pub verify_mutating_ace : Ace → Result (Unit {0})
  unfolding require_mutating_ancestor_ace trusted_sid trusted_ancestor_error
  verify_mutating_ace ace = do
    require_mutating_ancestor_ace ace path
    fail_if (not (trusted_sid equal_sid (some ace.sid) expected role)) (trusted_ancestor_error path)

  unfoldable pub verify_ancestor_ace : Option Ace → Result (Unit {0})
  unfolding require_ace_pointer require_ancestor_ace_prefix mutates denied_ace verify_mutating_ace
  verify_ancestor_ace pointer = do
    ace ← require_ace_pointer pointer (trusted_ancestor_error path)
    require_ancestor_ace_prefix ace path
    if not (mutates role ace) || denied_ace ace.ace_type then ok tt else verify_mutating_ace ace

  unfoldable pub verify_ancestor_aces : Acl → ℕ → ℕ → Result (Unit {0})
  unfolding check_win32 verify_ancestor_ace
  verify_ancestor_aces acl zero index = ok tt
  verify_ancestor_aces acl (suc left) index = do
    pointer ← check_win32 (acl.get_ace index)
    verify_ancestor_ace pointer
    verify_ancestor_aces acl left (suc index)

  unfoldable pub verify_trusted_ancestor_acl : Acl → Result (Unit {0})
  unfolding check_win32 verify_ancestor_aces
  verify_trusted_ancestor_acl acl = do
    ace_count ← check_win32 acl.ace_count
    verify_ancestor_aces acl ace_count 0
