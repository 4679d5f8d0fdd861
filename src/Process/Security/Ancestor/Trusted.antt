-- ===== src/Process/Security/Ancestor/Trusted.antt =====
-- Which access control lists of an ancestor are accepted: `verify_trusted_ancestor_acl` of
-- tools/fs2-dev/src/process/windows_security.rs.
use fs2_turbo.Base.{
  ℕ, zero, suc, ◌+◌, ◌≤◌, ◌<◌, String, Bool, true, ◌==◌, Option, none, some, ◌≡◌, ◌↔◌, inl, inr,
  refl, ap, ◌∙◌, ok, ◌>>◌, bind-ok, Bool-cases, arith,
}
use fs2_turbo.Process.Security.{
  Sid, Ace, Acl, PrivateSecurity, AncestorRole, directory, volume_root, check_win32, trusted_sid,
  denied_ace, require_ace_pointer, access_allowed_ace_type_value, access_allowed_ace_size,
}
use fs2_turbo.Process.Security.Ancestor.Rights.{
  GivesNoRight, IsDenial, IsTrusted, is_owner, is_system, is_administrators, is_installer,
  mutates-GivesNoRight, GivesNoRight-mutates, denied_iff, trusted_sid-IsTrusted, IsTrusted-trusted,
}
use fs2_turbo.Process.Security.Ancestor.{
  require_ancestor_ace_prefix, require_mutating_ancestor_ace, mutates, verify_mutating_ace,
  verify_ancestor_ace, verify_ancestor_aces, verify_trusted_ancestor_acl,
}

module _ (equal_sid : Sid → Sid → Bool) (path : String) (expected : PrivateSecurity)
    (role : AncestorRole) where
  -- An entry that gives nobody but a trusted identity a right to change the path.
  pub data IsHarmless (ace : Ace) : Type 0 where
    no_right : GivesNoRight role ace → IsHarmless ace
    denial : IsDenial ace → IsHarmless ace
    permission :
        ace.ace_type ≡ 0
        → 12 ≤ ace.ace_size
        → IsTrusted equal_sid expected role ace.sid
        → IsHarmless ace

  mutating_iff :
      (ace : Ace)
      → (verify_mutating_ace equal_sid path expected role ace ≡ ok tt) ↔ (
          (ace.ace_type ≡ access_allowed_ace_type_value)
          × access_allowed_ace_size ≤ ace.ace_size
          × (trusted_sid equal_sid (some ace.sid) expected role ≡ true))
  unfolding verify_mutating_ace require_mutating_ancestor_ace
  mutating_iff ace = ground arith

  ace-IsHarmless :
      (ace : Ace)
      → verify_ancestor_ace equal_sid path expected role (some ace) ≡ ok tt
      → 8 ≤ ace.ace_size × IsHarmless ace
  unfolding verify_ancestor_ace require_ancestor_ace_prefix
  ace-IsHarmless ace h = elim (Bool-cases (mutates role ace)) [
    | inr never ↦ (ground arith, no_right (mutates-GivesNoRight role ace never))
    | inl may ↦ elim (Bool-cases (denied_ace ace.ace_type)) [
      | inl denied ↦ (ground arith, denial ((denied_iff ace).0 denied))
      | inr allowed ↦
          let (plain, size, trusted) = (mutating_iff ace).0 (ground arith) in
          (
            ground arith,
            permission plain size (trusted_sid-IsTrusted equal_sid expected role ace.sid trusted),
          )
    ]
  ]

  pointer-IsHarmless :
      (p : Option Ace)
      → verify_ancestor_ace equal_sid path expected role p ≡ ok tt
      → (ace : Ace) × (p ≡ some ace) × 8 ≤ ace.ace_size × IsHarmless ace
  unfolding verify_ancestor_ace require_ace_pointer
  pointer-IsHarmless none h = absurd cc
  pointer-IsHarmless (some ace) h =
      let (size, harmless) = ace-IsHarmless ace h in (ace, refl, size, harmless)

  IsHarmless-ace :
      (ace : Ace)
      → 8 ≤ ace.ace_size
      → IsHarmless ace
      → verify_ancestor_ace equal_sid path expected role (some ace) ≡ ok tt
  unfolding verify_ancestor_ace require_ancestor_ace_prefix
  IsHarmless-ace ace size (no_right h) = let never = GivesNoRight-mutates role ace h in ground arith
  IsHarmless-ace ace size (denial h) = let denied = (denied_iff ace).1 h in ground arith
  IsHarmless-ace ace size (permission plain full trusted) =
      let fine =
        (mutating_iff ace).1
          (plain, full, IsTrusted-trusted equal_sid expected role ace.sid trusted) in
      ground arith

  -- The entries from an index on exist, are long enough to be read, and are harmless.
  abbrev pub AllHarmless : Acl → ℕ → ℕ → Type 0
  AllHarmless acl left index =
      (i : ℕ)
      → index ≤ i
      → i < index + left
      → (ace : Ace) × (check_win32 (acl.get_ace i) ≡ ok (some ace))
        × 8 ≤ ace.ace_size
        × IsHarmless ace

  aces-AllHarmless :
      (acl : Acl) (left index : ℕ)
      → verify_ancestor_aces equal_sid path expected role acl left index ≡ ok tt
      → AllHarmless acl left index
  unfolding verify_ancestor_aces
  aces-AllHarmless acl zero index h i low high = absurd (omega (arith, low, high))
  aces-AllHarmless acl (suc left) index h i low high =
      let (pointer, read, after) =
        bind-ok (check_win32 (acl.get_ace index))
          (λ p.
            verify_ancestor_ace equal_sid path expected role p
            >> verify_ancestor_aces equal_sid path expected role acl left (suc index))
          tt h in
      let (u, fine, others) =
        bind-ok (verify_ancestor_ace equal_sid path expected role pointer)
          (λ _. verify_ancestor_aces equal_sid path expected role acl left (suc index)) tt after in
      elim (Bool-cases (i == index)) [
        | inl here ↦
            let (ace, same, size, harmless) = pointer-IsHarmless pointer fine in
            (
              ace,
              ap (λ j. check_win32 (acl.get_ace j)) (ground arith) ∙ read ∙ ap ok same,
              size,
              harmless,
            )
        | inr later ↦
            aces-AllHarmless acl left (suc index) others i (ground arith) (omega (arith, high))
      ]

  AllHarmless-aces :
      (acl : Acl) (left index : ℕ)
      → AllHarmless acl left index
      → verify_ancestor_aces equal_sid path expected role acl left index ≡ ok tt
  unfolding verify_ancestor_aces
  AllHarmless-aces acl zero index all = refl
  AllHarmless-aces acl (suc left) index all =
      let (ace, read, size, harmless) = all index (omega arith) (omega arith) in
      rw (read, verify_ancestor_aces, IsHarmless-ace ace size harmless)
        (AllHarmless-aces acl left (suc index)
          (λ i low high. all i (omega (arith, low)) (omega (arith, high))))

  -- An ancestor's access control list is accepted exactly when its entries can all be read and
  -- each has at least 8 bytes and either gives no right to replace or change what is below it, by
  -- the bits of its mask and of its inheritance, or is of one of the four types of denial, or is a
  -- plain permission of at least 12 bytes for the user, SYSTEM, the administrators or, on the root
  -- of a volume, TrustedInstaller.
  pub verify_trusted_ancestor_acl_iff :
      (acl : Acl)
      → (verify_trusted_ancestor_acl equal_sid path expected role acl ≡ ok tt)
        ↔ ((n : ℕ) × (check_win32 acl.ace_count ≡ ok n) × AllHarmless acl n 0)
  unfolding verify_trusted_ancestor_acl
  verify_trusted_ancestor_acl_iff acl = (
    λ h.
        let (n, counted, all) =
          bind-ok (check_win32 acl.ace_count)
            (λ n. verify_ancestor_aces equal_sid path expected role acl n 0) tt h in
        (n, counted, aces-AllHarmless acl n 0 all),
    λ (n, counted, all). rw (counted, verify_trusted_ancestor_acl) (AllHarmless-aces acl n 0 all),
  )

module _ (equal_sid : Sid → Sid → Bool) (path : String) (expected : PrivateSecurity) where
  IsTrusted-volume_root :
      (sid : Sid)
      → IsTrusted equal_sid expected directory sid
      → IsTrusted equal_sid expected volume_root sid
  IsTrusted-volume_root sid (is_owner h) = is_owner h
  IsTrusted-volume_root sid (is_system e h) = is_system e h
  IsTrusted-volume_root sid (is_administrators h) = is_administrators h
  IsTrusted-volume_root sid (is_installer e h) = absurd cc

  IsHarmless-volume_root :
      (ace : Ace)
      → IsHarmless equal_sid path expected directory ace
      → IsHarmless equal_sid path expected volume_root ace
  IsHarmless-volume_root ace (no_right h) =
      no_right (record { here = h.here; in_directories = inl refl; in_files = inl refl })
  IsHarmless-volume_root ace (denial h) = denial h
  IsHarmless-volume_root ace (permission plain size h) =
      permission plain size (IsTrusted-volume_root ace.sid h)

  -- An access control list that is accepted for an ordinary directory is accepted for the root of
  -- a volume.
  pub verify_trusted_ancestor_acl-volume_root :
      (acl : Acl)
      → verify_trusted_ancestor_acl equal_sid path expected directory acl ≡ ok tt
      → verify_trusted_ancestor_acl equal_sid path expected volume_root acl ≡ ok tt
  verify_trusted_ancestor_acl-volume_root acl h =
      let (n, counted, all) =
        (verify_trusted_ancestor_acl_iff equal_sid path expected directory acl).0 h in
      (verify_trusted_ancestor_acl_iff equal_sid path expected volume_root acl).1 (
        n,
        counted,
        λ i low high.
            let (ace, read, size, harmless) = all i low high in
            (ace, read, size, IsHarmless-volume_root ace harmless),
      )
