-- ===== src/Process/Security/Create/Verified.antt =====
-- What is known of a private directory that is handed out: `create_or_open_private_directory` and
-- `harden_new_private_directory` of tools/fs2-dev/src/process/windows_security.rs.
use fs2_turbo.Base.{List, ◌≡◌, ap, ok}
use mathlib.Core.Path.{subst}
use fs2_turbo.Base.Io.{lift, ◌>>=◌, ◌>>◌}
use fs2_turbo.Base.Io.Chains.{bind-ok, bind-EndsIn}
use fs2_turbo.Process.Security.Descriptor.{Descriptor, verify_private_descriptor}
use fs2_turbo.Process.Security.Descriptor.Accepted.{IsPrivate, verify_private_descriptor-IsPrivate}
use fs2_turbo.Process.Security.Path.{Component}
use fs2_turbo.Process.Security.Identity.{Security}
use fs2_turbo.Process.Security.Ancestry.{
  AncestrySystem, private_security, read_access, checked, open_directory, read_security_descriptor,
  verify_private_directory,
}
use fs2_turbo.Process.Security.Ancestry.Held.{checked-ok}
use fs2_turbo.Process.Security.Create.{
  CreateCalls, harden_access, create_directory, create_or_open_private_directory, set_security,
  harden, harden_new_private_directory,
}

module _ {S D A R : Type 0} (W : AncestrySystem S D A R) (writes : CreateCalls S D A R) where
  -- A directory whose descriptor was read from its handle and found to be private to the user that the
  -- process has.
  pub record IsPrivateDirectory (path : List Component) (d : D) : Type 0 where
    pub security : Security A R
    pub asked : S
    pub told : S
    pub is_user : private_security W asked ≡ (ok security, told)
    pub before : S
    pub after : S
    pub descriptor : Descriptor
    pub read : read_security_descriptor W d before ≡ (ok descriptor, after)
    pub is_private : IsPrivate W.equal_sid (W.show path) security.identities descriptor

  verified-IsPrivateDirectory :
      (path : List Component) (security : Security A R) (asked told : S)
      → private_security W asked ≡ (ok security, told)
      → (d : D) (s s' : S) → verify_private_directory W path security.identities d s ≡ (ok tt, s')
      → IsPrivateDirectory path d
  unfolding verify_private_directory
  verified-IsPrivateDirectory path security asked told is_user d s s' h =
      let (descriptor, s₁, read, later) =
        bind-ok (read_security_descriptor W d)
          (λ x. lift (verify_private_descriptor W.equal_sid (W.show path) security.identities x)) s
          s' tt h in
      record {
        security = security;
        asked = asked;
        told = told;
        is_user = is_user;
        before = s;
        after = s₁;
        descriptor = descriptor;
        read = read;
        is_private =
            verify_private_descriptor-IsPrivate W.equal_sid (W.show path) security.identities
              descriptor (ap (λ r. r.0) later);
      }

  -- A private directory that is handed out, created or there before, has had its descriptor read
  -- from its handle: it is owned by the user of the process, and its protected list of entries was
  -- accepted.
  pub create_or_open-IsPrivateDirectory :
      (path : List Component) (s s' : S) (d : D)
      → create_or_open_private_directory W writes path s ≡ (ok d, s')
      → IsPrivateDirectory path d
  unfolding create_or_open_private_directory
  create_or_open-IsPrivateDirectory path s s' d h =
      let (security, s₁, known, after) =
        bind-ok (private_security W)
          (λ x.
            create_directory W writes path x.descriptor
            >> (open_directory W path read_access >>= λ d.
                checked W (verify_private_directory W path x.identities) d))
          s s' d h in
      bind-EndsIn (create_directory W writes path security.descriptor) _
        (λ d _. IsPrivateDirectory path d)
        (λ _.
          bind-EndsIn (open_directory W path read_access)
            (λ d. checked W (verify_private_directory W path security.identities) d)
            (λ d _. IsPrivateDirectory path d)
            (λ d. λ s₂ s₃ d' done.
              let verifies = verify_private_directory W path security.identities in
              let (same, good) = checked-ok W verifies d d' s₂ s₃ done in
              subst (IsPrivateDirectory path) same (
                verified-IsPrivateDirectory path security s s₁ known d s₂ (verifies d s₂).1
                  (ap (λ r. (r, (verifies d s₂).1)) good))))
        s₁ s' d after

  -- A directory that has been hardened is private to the user as it is then read back.
  pub harden_new-IsPrivateDirectory :
      (path : List Component) (s s' : S) (d : D)
      → harden_new_private_directory W writes path s ≡ (ok d, s')
      → IsPrivateDirectory path d
  unfolding harden_new_private_directory harden
  harden_new-IsPrivateDirectory path s s' d h =
      let (security, s₁, known, after) =
        bind-ok (private_security W)
          (λ x. open_directory W path harden_access >>= λ d. checked W (harden W writes path x) d) s
          s' d h in
      bind-EndsIn (open_directory W path harden_access)
        (λ d. checked W (harden W writes path security) d) (λ d _. IsPrivateDirectory path d)
        (λ d. λ s₂ s₃ d' done.
          let hardens = harden W writes path security in
          let (same, good) = checked-ok W hardens d d' s₂ s₃ done in
          let (u, s₄, written, verified) =
            bind-ok (set_security W writes security d)
              (λ _. verify_private_directory W path security.identities d) s₂ (hardens d s₂).1 tt
              (ap (λ r. (r, (hardens d s₂).1)) good) in
          subst (IsPrivateDirectory path) same
            (verified-IsPrivateDirectory path security s s₁ known d s₄ (hardens d s₂).1 verified))
        s₁ s' d after
