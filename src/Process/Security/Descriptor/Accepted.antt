-- ===== src/Process/Security/Descriptor/Accepted.antt =====
-- Which descriptors are accepted: `verify_private_descriptor` and `verify_trusted_descriptor` of
-- tools/fs2-dev/src/process/windows_security.rs.
use fs2_turbo.Base.{
  ℕ, String, Bool, true, not, ◌==◌, bit_and, Option, none, some, ◌≡◌, ◌≢◌, ap, ◌∙◌, Error, ok,
  fail_if, bind-reaches, arith,
}
use fs2_turbo.Process.Security.{
  Sid, Acl, PrivateSecurity, AncestorRole, check_win32, sid_matches, trusted_sid,
  trusted_ancestor_error,
}
use fs2_turbo.Process.Security.Private.{verify_acl}
use fs2_turbo.Process.Security.Ancestor.{verify_trusted_ancestor_acl}
use fs2_turbo.Process.Security.Descriptor.{
  Descriptor, se_dacl_protected, require_dacl, no_dacl, security_descriptor_owner,
  security_descriptor_dacl, verify_private_descriptor, verify_trusted_descriptor,
}

given_dacl : (o : Option Acl) (e : Error) (dacl : Acl) → require_dacl o e ≡ ok dacl → o ≡ some dacl
unfolding require_dacl
given_dacl (some a) e dacl h = cc
given_dacl none e dacl h = absurd cc

module _ (equal_sid : Sid → Sid → Bool) (path : String) (expected : PrivateSecurity) where
  -- A protected list of accepted entries, with the current user as the owner.
  pub record IsPrivate (d : Descriptor) : Type 0 where
    pub control : ℕ
    pub read_control : check_win32 d.control ≡ ok control
    pub is_protected : bit_and control se_dacl_protected ≢ 0
    pub owner : Option Sid
    pub read_owner : security_descriptor_owner d ≡ ok owner
    pub is_owner : sid_matches equal_sid owner expected.owner ≡ true
    pub dacl : Acl
    pub read_dacl : security_descriptor_dacl d ≡ ok (some dacl)
    pub is_limited : verify_acl equal_sid path expected dacl ≡ ok tt

  pub verify_private_descriptor-IsPrivate :
      (d : Descriptor) → verify_private_descriptor equal_sid path expected d ≡ ok tt → IsPrivate d
  unfolding verify_private_descriptor
  verify_private_descriptor-IsPrivate d =
      bind-reaches (check_win32 d.control) _
        (λ control read_control.
          bind-reaches (fail_if (bit_and control se_dacl_protected == 0) _) _ (λ _ protected.
            bind-reaches (security_descriptor_owner d) _ (λ owner read_owner.
              bind-reaches (fail_if (not (sid_matches equal_sid owner expected.owner)) _) _
                (λ _ owned. bind-reaches (security_descriptor_dacl d) _ (λ present read_dacl.
                  bind-reaches {P = λ _. IsPrivate d} (require_dacl present _)
                    (λ dacl. verify_acl equal_sid path expected dacl)
                    (λ dacl given u limited. record {
                      control = control;
                      read_control = read_control;
                      is_protected = ground arith;
                      owner = owner;
                      read_owner = read_owner;
                      is_owner = ground arith;
                      dacl = dacl;
                      read_dacl = read_dacl ∙ ap ok (given_dacl present (no_dacl path) dacl given);
                      is_limited = limited;
                    }))))))
        tt

  -- A list of harmless entries, with a trusted owner.
  pub record IsTrusted (role : AncestorRole) (d : Descriptor) : Type 0 where
    pub owner : Option Sid
    pub read_owner : security_descriptor_owner d ≡ ok owner
    pub is_trusted : trusted_sid equal_sid owner expected role ≡ true
    pub dacl : Acl
    pub read_dacl : security_descriptor_dacl d ≡ ok (some dacl)
    pub is_harmless : verify_trusted_ancestor_acl equal_sid path expected role dacl ≡ ok tt

  pub verify_trusted_descriptor-IsTrusted :
      (role : AncestorRole) (d : Descriptor)
      → verify_trusted_descriptor equal_sid path expected role d ≡ ok tt
      → IsTrusted role d
  unfolding verify_trusted_descriptor
  verify_trusted_descriptor-IsTrusted role d =
      bind-reaches (security_descriptor_owner d) _
        (λ owner read_owner.
          bind-reaches (fail_if (not (trusted_sid equal_sid owner expected role)) _) _ (λ _ owned.
            bind-reaches (security_descriptor_dacl d) _ (λ present read_dacl.
              bind-reaches {P = λ _. IsTrusted role d} (require_dacl present _)
                (λ dacl. verify_trusted_ancestor_acl equal_sid path expected role dacl)
                (λ dacl given u harmless. record {
                  owner = owner;
                  read_owner = read_owner;
                  is_trusted = ground arith;
                  dacl = dacl;
                  read_dacl =
                      read_dacl
                      ∙ ap ok (given_dacl present (trusted_ancestor_error path) dacl given);
                  is_harmless = harmless;
                }))))
        tt
