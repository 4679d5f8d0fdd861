-- ===== src/Examples/Descriptors.antt =====
-- Access control lists and paths on which the theorems on Windows security are applied.
use fs2_turbo.Base.{
  ℕ, suc, ◌+◌, ◌-◌, ◌≤◌, ◌<◌, Bool, ◌&&◌, get_or, inl, inr, Bool-cases, arith, ◌==◌, String, true,
  false, pos, List, [], ◌∷◌, length, get_elem?, some, ◌≡◌, ◌↔◌, refl, ErrorKind, ok, All,
}
use Prim.Native.Char.{Char, code}
use fs2_turbo.Process.Security.{Ace, Acl, NativeCall, PrivateSecurity, AncestorRole, check_win32}
use fs2_turbo.Process.Security.Private.{verify_acl}
use fs2_turbo.Process.Security.Private.Limited.{AllPrivate, entries_of_owner, verify_acl-AllPrivate}
use fs2_turbo.Process.Security.Ancestor.{verify_trusted_ancestor_acl}
use fs2_turbo.Process.Security.Ancestor.Trusted.{AllHarmless, verify_trusted_ancestor_acl_iff}
use fs2_turbo.Process.Security.Descriptor.{descriptor_probe_size}
use fs2_turbo.Process.Security.Path.{WindowsPath, Component, Prefix, reject_ambiguous_path_with}
use fs2_turbo.Process.Security.Path.Letters.{IsCapitals}
use fs2_turbo.Process.Security.Path.Plain.{IsPlain, reject_ambiguous_path_with_iff}
use fs2_turbo.Examples.Directories.{identities, lists}
use fs2_turbo.Process.Security.Ancestry.{
  AncestrySystem, same_bytes, guard_trusted_directory_ancestry,
}
use fs2_turbo.Process.Security.Ancestry.Held.{IsVetted, guard_trusted_directory_ancestry-IsVetted}

-- Identities are short here; a native call answers 1.
abbrev user : PrivateSecurity
user = record { owner = 1 ∷ []; system = some (2 ∷ []); administrators = 3 ∷ [] }

abbrev answers {ℓ} : {A : Type ℓ} → A → NativeCall A
answers value = record { result = pos 1; last_os_error = pos 0; value = value }

abbrev list_of : List Ace → Acl
list_of aces = record {
  ace_count = answers (length aces);
  get_ace = λ i. answers (get_elem? aces i);
}

abbrev full_access : ℕ → Ace
full_access n = record { ace_type = 0; ace_flags = 3; ace_size = 12; mask = 0x1F01FF; sid = n ∷ [] }

-- Everyone may read and pass through.
abbrev read_only : Ace
read_only = record { ace_type = 0; ace_flags = 3; ace_size = 12; mask = 0x1200A9; sid = 9 ∷ [] }

abbrev private_list : Acl
private_list = list_of (full_access 1 ∷ full_access 2 ∷ [])

abbrev ancestor_list : Acl
ancestor_list = list_of (full_access 3 ∷ full_access 1 ∷ read_only ∷ [])

private_accepted : verify_acl same_bytes "C:\\capture" user private_list ≡ ok tt
unfolding verify_acl
private_accepted = refl

ancestor_accepted :
    verify_trusted_ancestor_acl same_bytes "C:\\" user AncestorRole.directory ancestor_list ≡ ok tt
unfolding verify_trusted_ancestor_acl
ancestor_accepted = refl

-- A stranger with the whole access is refused.
stranger_refused :
    (verify_trusted_ancestor_acl same_bytes "C:\\" user AncestorRole.volume_root
        (list_of (full_access 9 ∷ []))
      ≡ ok tt)
    → ⊥
unfolding verify_trusted_ancestor_acl
stranger_refused h = cc

verify_acl-AllPrivate_example :
    (check_win32 private_list.ace_count ≡ ok 2)
    × AllPrivate same_bytes "C:\\capture" user private_list 2 0
    × (entries_of_owner same_bytes "C:\\capture" user private_list 2 0 ≡ 1)
verify_acl-AllPrivate_example =
    verify_acl-AllPrivate same_bytes "C:\\capture" user private_list private_accepted

verify_trusted_ancestor_acl_iff_example :
    (verify_trusted_ancestor_acl same_bytes "C:\\" user AncestorRole.directory ancestor_list
      ≡ ok tt)
    ↔ ((n : ℕ) × (check_win32 ancestor_list.ace_count ≡ ok n)
        × AllHarmless same_bytes "C:\\" user AncestorRole.directory ancestor_list n 0)
verify_trusted_ancestor_acl_iff_example =
    verify_trusted_ancestor_acl_iff same_bytes "C:\\" user AncestorRole.directory ancestor_list

-- `C:\ab`.
abbrev a_path : WindowsPath
a_path = record {
  components =
      Component.prefix (Prefix.disk 67) ∷ Component.root_dir ∷ Component.normal (97 ∷ 98 ∷ []) ∷ [];
  is_absolute = true;
  display = "C:\\ab";
}

-- Only what the examples have is decoded.
abbrev decode : List ℕ → String
decode units = "ab"

-- The capitals, by their numbers.
abbrev letters : List Char
letters =
    "A" ∷ "B" ∷ "C" ∷ "D" ∷ "E" ∷ "F" ∷ "G" ∷ "H" ∷ "I" ∷ "J" ∷ "K" ∷ "L" ∷ "M" ∷ "N" ∷ "O" ∷ "P"
    ∷ "Q" ∷ "R" ∷ "S" ∷ "T" ∷ "U" ∷ "V" ∷ "W" ∷ "X" ∷ "Y" ∷ "Z" ∷ []

abbrev upper : ℕ → Char
upper n = get_or "0" letters (n - 65)

abbrev is_numbered : ℕ → List Char → Bool
is_numbered k [] = true
is_numbered k (c ∷ cs) = code c == k && is_numbered (suc k) cs

numbered :
    (k : ℕ) (cs : List Char)
    → is_numbered k cs ≡ true
    → (n : ℕ) → k ≤ n
    → n < k + length cs
    → code (get_or "0" cs (n - k)) ≡ n
numbered k [] h n low high = absurd (omega (arith, low, high))
numbered k (c ∷ cs) h n low high = elim (Bool-cases (n == k)) [
  | inl here ↦ let first : n - k ≡ 0 = ground (arith, here) in rw first (ground (arith, here))
  | inr later ↦
      let rest : n - k ≡ suc (n - suc k) = ground (arith, later) in
      rw rest (numbered (suc k) cs (ground arith) n (ground (arith, later)) (omega (arith, high)))
]

upper-IsCapitals : IsCapitals upper
upper-IsCapitals n low high = numbered 65 letters refl n low (omega (arith, high))

reject_ambiguous_path_with_iff_example :
    (reject_ambiguous_path_with upper decode false a_path ≡ ok tt)
    ↔ All (IsPlain upper upper-IsCapitals decode false) a_path.components
reject_ambiguous_path_with_iff_example =
    reject_ambiguous_path_with_iff upper upper-IsCapitals decode false a_path

accepts : reject_ambiguous_path_with upper decode false a_path ≡ ok tt
unfolding reject_ambiguous_path_with
accepts = refl

-- A directory is a number, and every descriptor is that of `ancestor_list`. Drives are no aliases.
abbrev volume : AncestrySystem ℕ ℕ ℕ ℕ
volume = record {
  identities = identities;
  descriptors = lists;
  equal_sid = same_bytes;
  os_errors = record { os_text = λ c. "failed"; os_kind = λ c. ErrorKind.other };
  from_code = upper;
  to_string_lossy = decode;
  show = λ path. "";
  drive_type = λ root. 3;
  symlink_attributes = λ path s. (ok 0x10, s);
  create_file = λ path access s. (answers s, suc s);
  attributes = λ d s. (answers 0x10, s);
  close = λ d s. s;
  security_probe = λ d s. ((pos 0, 100, pos 122), s);
  read_security = λ d required s. (
    answers (record {
      control = answers 0x1000;
      owner = answers (some (1 ∷ []));
      dacl = answers (pos 1, some ancestor_list);
    }),
    s,
  );
  final_path = λ d s. (
    (
      7,
      record {
        components = Component.prefix (Prefix.verbatim_disk 67) ∷ Component.root_dir ∷ [];
        is_absolute = true;
        display = "C:\\";
      },
      pos 0,
    ),
    s,
  );
  identity = λ d s. (answers (1, d ∷ []), s);
}

holds : guard_trusted_directory_ancestry volume 1 false a_path 0 ≡ (ok (0 ∷ 1 ∷ []), 2)
unfolding guard_trusted_directory_ancestry descriptor_probe_size
holds = refl

guard_trusted_directory_ancestry-IsVetted_example : All (IsVetted volume) (0 ∷ 1 ∷ [])
guard_trusted_directory_ancestry-IsVetted_example =
    guard_trusted_directory_ancestry-IsVetted volume 1 false a_path 0 2 (0 ∷ 1 ∷ []) holds
