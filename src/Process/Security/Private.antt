-- ===== src/Process/Security/Private.antt =====
-- The access control list of a private directory: `verify_acl` of
-- tools/fs2-dev/src/process/windows_security.rs.
pub mod Limited
use fs2_turbo.Base.{
  ℕ, zero, suc, String, Bool, true, false, not, ◌&&◌, ◌||◌, ◌==◌, ltb, if◌then◌else◌, Option, none,
  some, Error, Result, ok, err, ◌>>=◌, ◌>>◌, fail_if,
}
use fs2_turbo.Process.Security.{
  Sid, Ace, Acl, NativeCall, PrivateSecurity, check_win32, sid_matches, matches_system,
  private_acl_error, require_ace_pointer, access_allowed_ace_type_value, access_allowed_ace_size,
  private_ace_flags, file_all_access,
}

-- `usize::from(expected.system.is_some())`.
abbrev pub expected_system : PrivateSecurity → ℕ
expected_system expected = elim expected.system [ some _ ↦ 1 | none ↦ 0 ]

abbrev pub expected_count : PrivateSecurity → ℕ
expected_count expected = elim expected.system [ some _ ↦ 2 | none ↦ 1 ]

unfoldable pub validate_private_ace_header : Ace → String → Result (Unit {0})
unfolding private_acl_error
validate_private_ace_header header path =
    fail_if
      (not (header.ace_type == access_allowed_ace_type_value)
        || ltb header.ace_size access_allowed_ace_size
        || not (header.ace_flags == private_ace_flags))
      (private_acl_error path)

-- How many entries of the owner and of the system have been seen.
pub record Counts : Type 0 where
  pub owner_count : ℕ
  pub system_count : ℕ

module _ (equal_sid : Sid → Sid → Bool) (path : String) (expected : PrivateSecurity) where
  unfoldable pub count_ace : Ace → Counts → Result Counts
  unfolding sid_matches matches_system private_acl_error
  count_ace ace counts =
      if sid_matches equal_sid (some ace.sid) expected.owner
      then ok (record { owner_count = suc counts.owner_count; system_count = counts.system_count })
      else if matches_system equal_sid (some ace.sid) expected
      then ok (record { owner_count = counts.owner_count; system_count = suc counts.system_count })
      else err (private_acl_error path)

  unfoldable pub verify_ace : Option Ace → Counts → Result Counts
  unfolding require_ace_pointer validate_private_ace_header count_ace private_acl_error
  verify_ace pointer counts = do
    ace ← require_ace_pointer pointer (private_acl_error path)
    validate_private_ace_header ace path
    fail_if (not (ace.mask == file_all_access)) (private_acl_error path)
    count_ace ace counts

  -- The entries from an index on.
  unfoldable pub verify_aces : Acl → ℕ → ℕ → Counts → Result Counts
  unfolding check_win32 verify_ace
  verify_aces acl zero index counts = ok counts
  verify_aces acl (suc left) index counts = do
    pointer ← check_win32 (acl.get_ace index)
    counts' ← verify_ace pointer counts
    verify_aces acl left (suc index) counts'

  unfoldable pub verify_acl : Acl → Result (Unit {0})
  unfolding check_win32 verify_aces private_acl_error
  verify_acl acl = do
    ace_count ← check_win32 acl.ace_count
    fail_if (not (ace_count == expected_count expected)) (private_acl_error path)
    counts ← verify_aces acl ace_count 0 (record { owner_count = 0; system_count = 0 })
    fail_if (not (counts.owner_count == 1) || not (counts.system_count == expected_system expected))
        (private_acl_error path)
