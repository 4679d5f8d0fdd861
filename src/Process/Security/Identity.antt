-- ===== src/Process/Security/Identity.antt =====
-- The identities and the descriptor of a private directory: `PrivateSecurity`, `current_user_sid`,
-- `well_known_sid` and `private_acl_size` of tools/fs2-dev/src/process/windows_security.rs.
pub mod Size
use fs2_turbo.Base.{
  ℕ, ◌+◌, ◌==◌, ltb, leb, not, ◌&&◌, if◌then◌else◌, String, Bool, true, false, ℤ, pos, List, [],
  ◌∷◌, length, Option, none, some, Error, os, Result, ok, err, ◌>>=◌, ◌>>◌, ok_or, u32_max, u64_max,
}
use fs2_turbo.Base.Io
use fs2_turbo.Base.Io.{Io, lift}
use fs2_turbo.Process.Security.{
  Sid, NativeCall, PrivateSecurity, check_win32, sid_bytes_equal, invalid_data, private_ace_flags,
  file_all_access,
}

-- `size_of::<ACL>`, and an entry without its identifier.
abbrev pub acl_size : ℕ
acl_size = 8

abbrev pub fixed_ace_size : ℕ
fixed_ace_size = 8

-- `usize::checked_add` on 64 bits.
unfoldable pub checked_add : ℕ → ℕ → Option ℕ
checked_add a b = if leb (a + b) u64_max then some (a + b) else none

-- One step of the fold: an entry's fixed part, and its identifier.
unfoldable pub add_entry_size : ℕ → ℕ → Option ℕ
unfolding checked_add
add_entry_size size sid_length = elim (checked_add size fixed_ace_size) [
  | none ↦ none
  | some size' ↦ checked_add size' sid_length
]

unfoldable pub entry_sizes : ℕ → List ℕ → Option ℕ
unfolding add_entry_size
entry_sizes size [] = some size
entry_sizes size (sid_length ∷ lengths) = elim (add_entry_size size sid_length) [
  | none ↦ none
  | some size' ↦ entry_sizes size' lengths
]

-- `flatten` of the two lengths.
abbrev pub sid_lengths : ℕ → Option ℕ → List ℕ
sid_lengths owner_length (some system_length) = owner_length ∷ system_length ∷ []
sid_lengths owner_length none = owner_length ∷ []

-- `u32::try_from` of the size.
unfoldable pub as_u32 : Option ℕ → Result ℕ
as_u32 none = err (invalid_data "capture private ACL is too large")
as_u32 (some size) =
    if leb size u32_max then ok size else err (invalid_data "capture private ACL is too large")

unfoldable pub private_acl_size : ℕ → Option ℕ → Result ℕ
unfolding entry_sizes as_u32
private_acl_size owner_length system_length =
    as_u32 (entry_sizes acl_size (sid_lengths owner_length system_length))

-- The calls that make a list and a descriptor; `A` and `R` are what they fill in so far.
pub record DescriptorCalls (A R : Type 0) : Type 0 where
  pub initialize_acl : ℕ → NativeCall A
  pub add_access_allowed_ace_ex : A → ℕ → ℕ → Sid → NativeCall A
  pub initialize_security_descriptor : NativeCall R
  pub set_security_descriptor_owner : R → Sid → NativeCall R
  pub set_security_descriptor_dacl : R → A → NativeCall R
  pub protect_security_descriptor : R → NativeCall R

-- `PrivateSecurity` with its list and its descriptor.
pub record Security (A R : Type 0) : Type 0 where
  pub identities : PrivateSecurity
  pub acl : A
  pub descriptor : R

module _ {A R : Type 0} (equal_sid : Sid → Sid → Bool) (calls : DescriptorCalls A R) where
  unfoldable pub add_access_ace : A → Sid → Result A
  unfolding check_win32
  add_access_ace acl sid =
      check_win32 (calls.add_access_allowed_ace_ex acl private_ace_flags file_all_access sid)

  abbrev pub add_system_ace : A → Option Sid → Result A
  add_system_ace acl (some system) = add_access_ace acl system
  add_system_ace acl none = ok acl

  -- SYSTEM is not listed twice when it is the user.
  unfoldable pub distinct_system : Sid → Sid → Option Sid
  unfolding sid_bytes_equal
  distinct_system owner system_sid =
      if sid_bytes_equal equal_sid owner system_sid then none else some system_sid

  abbrev pub length_of : Option Sid → Option ℕ
  length_of (some sid) = some (length sid)
  length_of none = none

  unfoldable pub from_sids : Sid → Sid → Sid → Result (Security A R)
  unfolding private_acl_size check_win32 add_access_ace distinct_system
  from_sids owner system_sid administrators =
      let system = distinct_system owner system_sid in
      do
        size ← private_acl_size (length owner) (length_of system)
        acl ← check_win32 (calls.initialize_acl size)
        acl₁ ← add_access_ace acl owner
        acl₂ ← add_system_ace acl₁ system
        descriptor ← check_win32 calls.initialize_security_descriptor
        descriptor₁ ← check_win32 (calls.set_security_descriptor_owner descriptor owner)
        descriptor₂ ← check_win32 (calls.set_security_descriptor_dacl descriptor₁ acl₂)
        descriptor₃ ← check_win32 (calls.protect_security_descriptor descriptor₂)
        ok (record {
          identities = record { owner = owner; system = system; administrators = administrators };
          acl = acl₂;
          descriptor = descriptor₃;
        })

-- The calls that name the user and the two groups; a token is a handle. The two size probes fill in a
-- number only.
pub record IdentityCalls (S : Type 0) : Type 0 where
  pub open_process_token : S → NativeCall ℕ × S
  pub token_user_size : ℕ → S → ℕ × S
  pub token_user : ℕ → ℕ → S → NativeCall (Option Sid) × S
  pub close_handle : ℕ → S → S
  pub is_valid_sid : Sid → Bool
  pub well_known_sid_size : ℕ → S → ℕ × S
  pub create_well_known_sid : ℕ → ℕ → S → NativeCall Sid × S
  pub last_os_error : S → ℤ
  pub local_system : ℕ
  pub builtin_administrators : ℕ

module _ {S : Type 0} (I : IdentityCalls S) where
  -- The length of a valid identifier is that of its bytes.
  unfoldable pub copy_sid : Option Sid → Result Sid
  copy_sid none = err (invalid_data "Windows returned an invalid user SID")
  copy_sid (some sid) =
      if I.is_valid_sid sid
      then ok sid
      else err (invalid_data "Windows returned an invalid user SID")

  -- `check_win32(i32::from(required != 0))`.
  unfoldable pub require_size : ℕ → S → Result ℕ
  require_size required s = if required == 0 then err (os (I.last_os_error s)) else ok required

  -- What is done with the token before it is closed.
  unfoldable pub token_sid : ℕ → Io S Sid
  unfolding require_size check_win32 copy_sid
  token_sid token s =
      let (required, s₁) = I.token_user_size token s in
      let (information, s₂) = I.token_user token required s₁ in
      elim (require_size required s₁) [
        | err e ↦ (err e, s₁)
        | ok _ ↦ (check_win32 information >>= copy_sid, s₂)
      ]

  unfoldable pub close_token : ℕ → Io S Sid → Io S Sid
  close_token token run s = let (result, s') = run s in (result, I.close_handle token s')

  unfoldable pub opened_token : Result ℕ → Io S Sid
  unfolding close_token token_sid
  opened_token (ok token) = close_token token (token_sid token)
  opened_token (err e) = lift (err e)

  unfoldable pub current_user_sid : Io S Sid
  unfolding check_win32 opened_token
  current_user_sid s =
      let (token, s') = I.open_process_token s in opened_token (check_win32 token) s'

  unfoldable pub well_known_sid : ℕ → Io S Sid
  unfolding require_size check_win32
  well_known_sid which s =
      let (required, s₁) = I.well_known_sid_size which s in
      let (sid, s₂) = I.create_well_known_sid which required s₁ in
      elim (require_size required s₁) [ err e ↦ (err e, s₁) | ok _ ↦ (check_win32 sid, s₂) ]

  module _ {A R : Type 0} (equal_sid : Sid → Sid → Bool) (calls : DescriptorCalls A R) where
    unfoldable pub new : Io S (Security A R)
    unfolding current_user_sid well_known_sid from_sids
    new = Io.◌>>=◌ current_user_sid (λ owner.
        Io.◌>>=◌ (well_known_sid I.local_system) (λ system_sid.
          Io.◌>>=◌ (well_known_sid I.builtin_administrators)
            (λ administrators. lift (from_sids equal_sid calls owner system_sid administrators))))
