-- ===== src/Process/Security/Descriptor.antt =====
-- The security descriptor of a directory: `verify_private_descriptor`, `verify_trusted_descriptor` and
-- `read_security_descriptor` of tools/fs2-dev/src/process/windows_security.rs.
pub mod Accepted
use fs2_turbo.Base.{
  ℕ, String, Bool, true, false, not, ◌&&◌, ◌||◌, ◌==◌, if◌then◌else◌, bit_and, ℤ, pos, eqb_ℤ, List,
  [], ◌∷◌, Option, none, some, Error, os, raw_os_error, Result, ok, err, ◌>>=◌, ◌>>◌, fail_if,
}
use fs2_turbo.Base.Text.{concat}
use fs2_turbo.Process.Security.{
  Sid, Acl, NativeCall, PrivateSecurity, AncestorRole, check_win32, sid_matches, trusted_sid,
  trusted_ancestor_error, invalid_data,
}
use fs2_turbo.Process.Security.Private.{verify_acl}
use fs2_turbo.Process.Security.Ancestor.{verify_trusted_ancestor_acl}

-- What `GetSecurityDescriptorControl`, `GetSecurityDescriptorOwner` and `GetSecurityDescriptorDacl` say;
-- the last fills in whether there is a list, and a pointer that may be null.
pub record Descriptor : Type 0 where
  pub control : NativeCall ℕ
  pub owner : NativeCall (Option Sid)
  pub dacl : NativeCall (ℤ × Option Acl)

abbrev pub se_dacl_protected : ℕ
se_dacl_protected = 0x1000

abbrev pub error_insufficient_buffer : ℤ
error_insufficient_buffer = pos 122

unfoldable pub security_descriptor_owner : Descriptor → Result (Option Sid)
unfolding check_win32
security_descriptor_owner descriptor = check_win32 descriptor.owner

abbrev pub then_some : ℤ × Option Acl → Option Acl
then_some (dacl_present, dacl) = if eqb_ℤ dacl_present (pos 0) then none else dacl

unfoldable pub security_descriptor_dacl : Descriptor → Result (Option Acl)
unfolding check_win32
security_descriptor_dacl descriptor = do dacl ← check_win32 descriptor.dacl; ok (then_some dacl)

unfoldable pub require_dacl : Option Acl → Error → Result Acl
require_dacl (some dacl) error = ok dacl
require_dacl none error = err error

abbrev pub raw_is : Error → ℤ → Bool
raw_is error code = elim (raw_os_error error) [ some c ↦ eqb_ℤ c code | none ↦ false ]

unfoldable pub descriptor_probe_size : ℤ → ℕ → Error → Result ℕ
descriptor_probe_size probe required error =
    if not (eqb_ℤ probe (pos 0)) || required == 0 || not (raw_is error error_insufficient_buffer)
    then err error
    else ok required

abbrev pub no_dacl : String → Error
no_dacl path = invalid_data (concat ("capture private directory has no DACL: " ∷ path ∷ []))

module _ (equal_sid : Sid → Sid → Bool) (path : String) (expected : PrivateSecurity) where
  unfoldable pub verify_private_descriptor : Descriptor → Result (Unit {0})
  unfolding check_win32 security_descriptor_owner sid_matches security_descriptor_dacl require_dacl
      verify_acl
  verify_private_descriptor descriptor = do
    control ← check_win32 descriptor.control
    fail_if (bit_and control se_dacl_protected == 0)
        (invalid_data (concat ("capture private directory DACL is not protected: " ∷ path ∷ [])))
    owner ← security_descriptor_owner descriptor
    fail_if (not (sid_matches equal_sid owner expected.owner)) (
        invalid_data
          (concat ("capture private directory owner differs from the current user: " ∷ path ∷ [])))
    present ← security_descriptor_dacl descriptor
    dacl ← require_dacl present (no_dacl path)
    verify_acl equal_sid path expected dacl

  unfoldable pub verify_trusted_descriptor : AncestorRole → Descriptor → Result (Unit {0})
  unfolding security_descriptor_owner trusted_sid security_descriptor_dacl require_dacl
      trusted_ancestor_error verify_trusted_ancestor_acl
  verify_trusted_descriptor role descriptor = do
    owner ← security_descriptor_owner descriptor
    fail_if (not (trusted_sid equal_sid owner expected role)) (trusted_ancestor_error path)
    present ← security_descriptor_dacl descriptor
    dacl ← require_dacl present (trusted_ancestor_error path)
    verify_trusted_ancestor_acl equal_sid path expected role dacl
