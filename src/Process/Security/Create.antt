-- ===== src/Process/Security/Create.antt =====
-- The private directories themselves: `create_or_open_private_directory` and
-- `harden_new_private_directory` of tools/fs2-dev/src/process/windows_security.rs.
pub mod Verified
use fs2_turbo.Base.{
  ℕ, ◌==◌, ◌&&◌, not, if◌then◌else◌, bit_or, String, Bool, ℤ, pos, eqb_ℤ, List, Option, none, some,
  Error, os, Result, ok, err,
}
use fs2_turbo.Base.Io.{Io, lift, ◌>>=◌, ◌>>◌}
use fs2_turbo.Process.Security.{Sid, PrivateSecurity, check_win32_status}
use fs2_turbo.Process.Security.Descriptor.{raw_is}
use fs2_turbo.Process.Security.Path.{Component}
use fs2_turbo.Process.Security.Identity.{Security, IdentityCalls, DescriptorCalls, new}
use fs2_turbo.Process.Security.Ancestry.{
  AncestrySystem, private_security, read_access, checked, open_directory, verify_private_directory,
}

abbrev pub error_already_exists : ℤ
error_already_exists = pos 183

-- READ_ACCESS with WRITE_DAC and WRITE_OWNER.
abbrev pub harden_access : ℕ
harden_access = bit_or read_access (bit_or 0x40000 0x80000)

unfoldable pub directory_creation_result : ℤ → Error → Result (Unit {0})
directory_creation_result result error =
    if eqb_ℤ result (pos 0) && not (raw_is error error_already_exists) then err error else ok tt

-- The two calls that write: `CreateDirectoryW` gives its result and the last error, `SetSecurityInfo` a
-- status.
pub record CreateCalls (S D A R : Type 0) : Type 0 where
  pub create_directory : List Component → R → S → (ℤ × ℤ) × S
  pub set_security_info : D → Sid → A → S → ℕ × S

module _ {S D A R : Type 0} (W : AncestrySystem S D A R) (writes : CreateCalls S D A R) where
  -- The directory is created, or is there already.
  unfoldable pub create_directory : List Component → R → Io S (Unit {0})
  unfolding directory_creation_result
  create_directory path descriptor s =
      let ((result, error), s') = writes.create_directory path descriptor s in
      (directory_creation_result result (os error), s')

  unfoldable pub create_or_open_private_directory : List Component → Io S D
  unfolding new create_directory open_directory checked verify_private_directory
  create_or_open_private_directory path = do
    security ← private_security W
    create_directory path security.descriptor
    directory ← open_directory W path read_access
    checked W (verify_private_directory W path security.identities) directory

  unfoldable pub set_security : Security A R → D → Io S (Unit {0})
  unfolding check_win32_status
  set_security security directory s =
      let (status, s') =
        writes.set_security_info directory security.identities.owner security.acl s in
      (check_win32_status status, s')

  -- The owner and the protected list are set, and then checked.
  unfoldable pub harden : List Component → Security A R → D → Io S (Unit {0})
  unfolding set_security verify_private_directory
  harden path security directory =
      set_security security directory
      >> verify_private_directory W path security.identities directory

  unfoldable pub harden_new_private_directory : List Component → Io S D
  unfolding new open_directory checked harden
  harden_new_private_directory path = do
    security ← private_security W
    directory ← open_directory W path harden_access
    checked W (harden path security) directory
