-- ===== src/Process/Security/Private/Limited.antt =====
-- Which access control lists of a private directory are accepted: `verify_acl` of
-- tools/fs2-dev/src/process/windows_security.rs.
use fs2_turbo.Base.{
  ℕ, zero, suc, ◌+◌, ◌≤◌, ◌<◌, String, Bool, true, not, ◌||◌, ◌==◌, if◌then◌else◌, Option, none,
  some, ◌≡◌, ◌⊎◌, inl, inr, refl, sym, ap, ◌∙◌, Result, ok, err, ◌>>=◌, ◌>>◌, fail_if, bind-ok,
  Bool-cases, arith,
}
use fs2_turbo.Process.Security.{
  Sid, Ace, Acl, PrivateSecurity, check_win32, sid_matches, matches_system, require_ace_pointer,
  private_acl_error, access_allowed_ace_type_value, access_allowed_ace_size, private_ace_flags,
  file_all_access,
}
use fs2_turbo.Process.Security.Private.{
  Counts, expected_system, expected_count, validate_private_ace_header, count_ace, verify_ace,
  verify_aces, verify_acl,
}

module _ (equal_sid : Sid → Sid → Bool) (path : String) (expected : PrivateSecurity) where
  -- An entry that gives the owner or SYSTEM the whole access, to be inherited, and does nothing else.
  pub record IsPrivateAce (ace : Ace) : Type 0 where
    pub is_permission : ace.ace_type ≡ access_allowed_ace_type_value
    pub is_whole : access_allowed_ace_size ≤ ace.ace_size
    pub is_inherited : ace.ace_flags ≡ private_ace_flags
    pub is_full : ace.mask ≡ file_all_access
    pub is_known :
        (sid_matches equal_sid (some ace.sid) expected.owner ≡ true)
        ⊎ (matches_system equal_sid (some ace.sid) expected ≡ true)

  -- 1 for an entry of the owner.
  of_owner : Result (Option Ace) → ℕ
  of_owner (ok (some ace)) = if sid_matches equal_sid (some ace.sid) expected.owner then 1 else 0
  of_owner (ok none) = 0
  of_owner (err e) = 0

  pub entries_of_owner : Acl → ℕ → ℕ → ℕ
  entries_of_owner acl zero index = 0
  entries_of_owner acl (suc left) index =
      of_owner (check_win32 (acl.get_ace index)) + entries_of_owner acl left (suc index)

  ace-IsPrivateAce :
      (p : Option Ace) (c c' : Counts)
      → verify_ace equal_sid path expected p c ≡ ok c'
      → (ace : Ace) × (p ≡ some ace)
        × IsPrivateAce ace
        × (c'.owner_count ≡ c.owner_count + of_owner (ok p))
  unfolding verify_ace require_ace_pointer validate_private_ace_header count_ace of_owner
  ace-IsPrivateAce none c c' h = absurd cc
  ace-IsPrivateAce (some ace) c c' h =
      let good : IsPrivateAce ace = record {
        is_permission = ground arith;
        is_whole = ground arith;
        is_inherited = ground arith;
        is_full = ground arith;
        is_known = ground arith;
      } in
      (ace, refl, good, ground arith)

  abbrev pub AllPrivate : Acl → ℕ → ℕ → Type 0
  AllPrivate acl left index =
      (i : ℕ)
      → index ≤ i
      → i < index + left
      → (ace : Ace) × (check_win32 (acl.get_ace i) ≡ ok (some ace)) × IsPrivateAce ace

  aces-AllPrivate :
      (acl : Acl) (left index : ℕ) (c c' : Counts)
      → verify_aces equal_sid path expected acl left index c ≡ ok c'
      → AllPrivate acl left index
        × (c'.owner_count ≡ c.owner_count + entries_of_owner acl left index)
  unfolding verify_aces entries_of_owner
  aces-AllPrivate acl zero index c c' h =
      (λ i low high. absurd (omega (arith, low, high)), ground arith)
  aces-AllPrivate acl (suc left) index c c' h =
      let (p, read, after) =
        bind-ok (check_win32 (acl.get_ace index))
          (λ p. verify_ace equal_sid path expected p c >>= λ c₁.
            verify_aces equal_sid path expected acl left (suc index) c₁)
          c' h in
      let (c₁, fine, others) =
        bind-ok (verify_ace equal_sid path expected p c)
          (λ c₁. verify_aces equal_sid path expected acl left (suc index) c₁) c' after in
      let (ace, same, private, counted) = ace-IsPrivateAce p c c₁ fine in
      let (all, total) = aces-AllPrivate acl left (suc index) c₁ c' others in
      (
        λ i low high. elim (Bool-cases (i == index)) [
          | inl here ↦ (
            ace,
            ap (λ j. check_win32 (acl.get_ace j)) (ground arith) ∙ read ∙ ap ok same,
            private,
          )
          | inr later ↦ all i (ground arith) (omega (arith, high))
        ],
        omega (arith, total, counted, ap of_owner read),
      )

  one_owner :
      (c : Counts)
      → fail_if
          (not (c.owner_count == 1) || not (c.system_count == expected_system expected))
          (private_acl_error path)
        ≡ ok tt
      → c.owner_count ≡ 1
  one_owner c h = ground arith

  -- When the access control list of a private directory is accepted, it has as many entries as
  -- expected identities, each an inherited permission of the whole access for the owner or for
  -- SYSTEM, and exactly one of them is the owner's.
  pub verify_acl-AllPrivate :
      (acl : Acl)
      → verify_acl equal_sid path expected acl ≡ ok tt
      → (check_win32 acl.ace_count ≡ ok (expected_count expected))
        × AllPrivate acl (expected_count expected) 0
        × (entries_of_owner acl (expected_count expected) 0 ≡ 1)
  unfolding verify_acl
  verify_acl-AllPrivate acl h =
      let none_yet : Counts = record { owner_count = 0; system_count = 0 } in
      let judge : ℕ → Counts → Result (Unit {0}) = λ n c.
        fail_if (not (c.owner_count == 1) || not (c.system_count == expected_system expected))
          (private_acl_error path) in
      let (n, counted, after) =
        bind-ok (check_win32 acl.ace_count)
          (λ n.
            fail_if (not (n == expected_count expected)) (private_acl_error path)
            >> (verify_aces equal_sid path expected acl n 0 none_yet >>= λ c. judge n c))
          tt h in
      let (u, sized, after') =
        bind-ok (fail_if (not (n == expected_count expected)) (private_acl_error path))
          (λ _. verify_aces equal_sid path expected acl n 0 none_yet >>= λ c. judge n c) tt after in
      let (c, seen, judged) =
        bind-ok (verify_aces equal_sid path expected acl n 0 none_yet) (λ c. judge n c) tt after' in
      let (all, total) = aces-AllPrivate acl n 0 none_yet c seen in
      let same : n ≡ expected_count expected = ground arith in
      (
        counted ∙ ap ok same,
        λ i low high. all i low (omega (arith, high, same)),
        sym (ap (λ m. entries_of_owner acl m 0) same) ∙ omega (arith, total, one_owner c judged),
      )
