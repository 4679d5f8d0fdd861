-- ===== src/Process/Security/Ancestor/Rights.antt =====
-- What an entry of an access control list lets someone do to a path below it, in the words of Windows:
-- for `verify_trusted_ancestor_acl` of tools/fs2-dev/src/process/windows_security.rs.
use fs2_turbo.Base.{
  ℕ, ◌/◌, ◌%◌, Bool, true, false, not, ◌&&◌, bit_and, List, [], ◌∷◌, ◌++◌, length, some, ◌≡◌, ◌≢◌,
  ◌↔◌, ◌⊎◌, inl, inr, refl, Option-cases, Bool-cases, arith,
}
use fs2_turbo.Process.Security.{
  Sid, Ace, PrivateSecurity, AncestorRole, is_directory, trusted_sid, trusted_installer_sid,
  matches_system, sid_matches, denied_ace,
}
use fs2_turbo.Process.Security.Ancestor.{
  mutates, mutates_current, mutates_descendant_directory, mutates_descendant_file,
}

-- Delete, delete a child, change the list or the owner, all or write access, add a file, and set
-- attributes: 0x10000, 0x40, 0x40000, 0x80000, 0x10000000, 0x40000000, 0x2 and 0x100. The second has 0x4 as
-- well: add a directory, or append.
abbrev pub KeepsName : Ace → Type 0
KeepsName ace = bit_and ace.mask 0x500D0142 ≡ 0

abbrev pub KeepsContent : Ace → Type 0
KeepsContent ace = bit_and ace.mask 0x500D0146 ≡ 0

-- The entry is inherited only (8) or gives no such right on the directory itself; and below an ordinary
-- directory it is not inherited by directories (2) or gives them none, and the same of files (1).
pub record GivesNoRight (role : AncestorRole) (ace : Ace) : Type 0 where
  pub here : (bit_and ace.ace_flags 8 ≢ 0) ⊎ KeepsName ace
  pub in_directories :
      (role ≡ AncestorRole.volume_root) ⊎ (bit_and ace.ace_flags 2 ≡ 0) ⊎ KeepsContent ace
  pub in_files :
      (role ≡ AncestorRole.volume_root) ⊎ (bit_and ace.ace_flags 1 ≡ 0) ⊎ KeepsContent ace

-- ACCESS_DENIED_ACE_TYPE, and its forms for objects, callbacks and both.
abbrev pub IsDenial : Ace → Type 0
IsDenial ace = (ace.ace_type ≡ 1) ⊎ (ace.ace_type ≡ 6) ⊎ (ace.ace_type ≡ 10) ⊎ (ace.ace_type ≡ 12)

-- The bytes of an identifier: its revision, the number of its parts, its authority in 6 bytes, and the
-- parts in 4 bytes each, the lowest first.
abbrev word : ℕ → List ℕ
word n = n % 256 ∷ n / 256 % 256 ∷ n / 65536 % 256 ∷ n / 16777216 ∷ []

abbrev words : List ℕ → List ℕ
words [] = []
words (n ∷ ns) = word n ++ words ns

abbrev pub identifier : ℕ → List ℕ → Sid
identifier authority parts = 1 ∷ length parts ∷ 0 ∷ 0 ∷ 0 ∷ 0 ∷ 0 ∷ authority ∷ words parts

-- S-1-5-80-956008885-3418522649-1831038044-1853292631-2271478464, which is TrustedInstaller.
abbrev pub installer : Sid
installer = identifier 5 (80 ∷ 956008885 ∷ 3418522649 ∷ 1831038044 ∷ 1853292631 ∷ 2271478464 ∷ [])

installer-trusted_installer_sid : trusted_installer_sid ≡ installer
installer-trusted_installer_sid = refl

-- The user, SYSTEM, the administrators, and TrustedInstaller for the root of a volume.
pub data IsTrusted (equal_sid : Sid → Sid → Bool) (expected : PrivateSecurity) (role : AncestorRole)
    (sid : Sid) : Type 0 where
  is_owner : equal_sid sid expected.owner ≡ true → IsTrusted equal_sid expected role sid
  is_system :
      {system : Sid}
      → expected.system ≡ some system
      → equal_sid sid system ≡ true
      → IsTrusted equal_sid expected role sid
  is_administrators :
      equal_sid sid expected.administrators ≡ true → IsTrusted equal_sid expected role sid
  is_installer :
      role ≡ AncestorRole.volume_root
      → equal_sid sid installer ≡ true
      → IsTrusted equal_sid expected role sid

pub mutates-GivesNoRight :
    (role : AncestorRole) (ace : Ace) → mutates role ace ≡ false → GivesNoRight role ace
unfolding mutates mutates_current mutates_descendant_directory mutates_descendant_file
mutates-GivesNoRight AncestorRole.directory ace h = record {
  here = ground arith;
  in_directories = inr (ground arith);
  in_files = inr (ground arith);
}
mutates-GivesNoRight AncestorRole.volume_root ace h = record {
  here = ground arith;
  in_directories = inl refl;
  in_files = inl refl;
}

ordinary : {A : Type 0} → (AncestorRole.directory ≡ AncestorRole.volume_root) ⊎ A → A
ordinary (inl p) = absurd cc
ordinary (inr a) = a

pub GivesNoRight-mutates :
    (role : AncestorRole) (ace : Ace) → GivesNoRight role ace → mutates role ace ≡ false
unfolding mutates mutates_current mutates_descendant_directory mutates_descendant_file
GivesNoRight-mutates AncestorRole.directory ace h =
    let here = h.here in
    let in_directories = ordinary h.in_directories in
    let in_files = ordinary h.in_files in ground arith
GivesNoRight-mutates AncestorRole.volume_root ace h = let here = h.here in ground arith

pub denied_iff : (ace : Ace) → (denied_ace ace.ace_type ≡ true) ↔ IsDenial ace
unfolding denied_ace
denied_iff ace = ground arith

module _ (equal_sid : Sid → Sid → Bool) (expected : PrivateSecurity) where
  -- Where no other identity is left.
  installer-IsTrusted :
      (role : AncestorRole) (sid : Sid)
      → (not (is_directory role) && equal_sid sid installer) ≡ true
      → IsTrusted equal_sid expected role sid
  installer-IsTrusted AncestorRole.directory sid h = absurd cc
  installer-IsTrusted AncestorRole.volume_root sid h = is_installer refl h

  pub trusted_sid-IsTrusted :
      (role : AncestorRole) (sid : Sid)
      → trusted_sid equal_sid (some sid) expected role ≡ true
      → IsTrusted equal_sid expected role sid
  unfolding trusted_sid matches_system sid_matches
  trusted_sid-IsTrusted role sid h = elim (Bool-cases (equal_sid sid expected.owner)) [
    | inl owner ↦ is_owner owner
    | inr not_owner ↦ elim (Bool-cases (equal_sid sid expected.administrators)) [
      | inl administrators ↦ is_administrators administrators
      | inr other ↦ elim (Option-cases expected.system) [
        | inl none_known ↦
            installer-IsTrusted role sid (ground (arith, not_owner, other, none_known))
        | inr (system, e) ↦ elim (Bool-cases (equal_sid sid system)) [
          | inl same ↦ is_system e same
          | inr differs ↦
              installer-IsTrusted role sid (ground (arith, not_owner, other, e, differs))
        ]
      ]
    ]
  ]

  pub IsTrusted-trusted :
      (role : AncestorRole) (sid : Sid)
      → IsTrusted equal_sid expected role sid
      → trusted_sid equal_sid (some sid) expected role ≡ true
  unfolding trusted_sid matches_system sid_matches
  IsTrusted-trusted role sid (is_owner h) = ground arith
  IsTrusted-trusted role sid (is_system e h) = ground (arith, e)
  IsTrusted-trusted role sid (is_administrators h) = ground arith
  IsTrusted-trusted role sid (is_installer e h) = ground (arith, e)
