-- ===== src/Examples/Directories.antt =====
-- A Windows system on which the theorems on private directories are applied.
use fs2_turbo.Base.{
  ℕ, suc, ◌==◌, if◌then◌else◌, true, pos, List, [], ◌∷◌, ◌++◌, get_elem?, Any, some, ◌≡◌, refl,
  ErrorKind, ok,
}
use fs2_turbo.Process.Security.{Ace, Acl, NativeCall}
use fs2_turbo.Process.Security.Descriptor.{descriptor_probe_size}
use fs2_turbo.Process.Security.Path.{WindowsPath, Component, Prefix}
use fs2_turbo.Process.Security.Ancestry.{AncestrySystem, same_bytes}
use fs2_turbo.Process.Security.Identity.{IdentityCalls, DescriptorCalls, private_acl_size}
use fs2_turbo.Process.Security.Create.{CreateCalls, create_or_open_private_directory}
use fs2_turbo.Process.Security.Create.Verified.{
  IsPrivateDirectory, create_or_open-IsPrivateDirectory,
}
use fs2_turbo.Process.Capture.Root.{capture_directory}
use fs2_turbo.Process.Capture.Root.Bound.{IsBound, capture_directory-IsBound}

-- The user is 1, SYSTEM 2 and the administrators 3; a native call answers 1.
abbrev answered {ℓ} : {A : Type ℓ} → A → NativeCall A
answered value = record { result = pos 1; last_os_error = pos 0; value = value }

abbrev whole_access : ℕ → Ace
whole_access n = record {
  ace_type = 0;
  ace_flags = 3;
  ace_size = 12;
  mask = 0x1F01FF;
  sid = n ∷ [];
}

abbrev private_aces : List Ace
private_aces = whole_access 1 ∷ whole_access 2 ∷ []

abbrev listed : Acl
listed = record { ace_count = answered 2; get_ace = λ i. answered (get_elem? private_aces i) }

abbrev private_path : WindowsPath
private_path = record {
  components =
      Component.prefix (Prefix.disk 67) ∷ Component.root_dir ∷ Component.normal (97 ∷ 98 ∷ []) ∷ [];
  is_absolute = true;
  display = "C:\\ab";
}

-- The two groups are known by the numbers of their identities.
abbrev pub identities : IdentityCalls ℕ
identities = record {
  open_process_token = λ s. (answered 5, s);
  token_user_size = λ token s. (28, s);
  token_user = λ token required s. (answered (some (1 ∷ [])), s);
  close_handle = λ token s. s;
  is_valid_sid = λ sid. true;
  well_known_sid_size = λ which s. (12, s);
  create_well_known_sid = λ which required s. (answered (which ∷ []), s);
  last_os_error = λ s. pos 0;
  local_system = 2;
  builtin_administrators = 3;
}

abbrev pub lists : DescriptorCalls ℕ ℕ
lists = record {
  initialize_acl = λ size. answered size;
  add_access_allowed_ace_ex = λ acl flags mask sid. answered acl;
  initialize_security_descriptor = answered 0;
  set_security_descriptor_owner = λ r sid. answered r;
  set_security_descriptor_dacl = λ r acl. answered r;
  protect_security_descriptor = λ r. answered r;
}

-- A directory is a number, and every descriptor is private to the user.
abbrev private_volume : AncestrySystem ℕ ℕ ℕ ℕ
private_volume = record {
  identities = identities;
  descriptors = lists;
  equal_sid = same_bytes;
  os_errors = record { os_text = λ c. "failed"; os_kind = λ c. ErrorKind.other };
  from_code = λ n. if n == 65 then "A" else "B";
  to_string_lossy = λ units. "ab";
  show = λ path. "";
  drive_type = λ root. 3;
  symlink_attributes = λ path s. (ok 0x10, s);
  create_file = λ path access s. (answered s, suc s);
  attributes = λ d s. (answered 0x10, s);
  close = λ d s. s;
  security_probe = λ d s. ((pos 0, 100, pos 122), s);
  read_security = λ d required s. (
    answered (record {
      control = answered 0x1000;
      owner = answered (some (1 ∷ []));
      dacl = answered (pos 1, some listed);
    }),
    s,
  );
  final_path = λ d s. (
    (
      7,
      record {
        components = Component.prefix (Prefix.verbatim_disk 67) ∷ Component.root_dir ∷ [];
        is_absolute = true;
        display = "C:\\";
      },
      pos 0,
    ),
    s,
  );
  identity = λ d s. (answered (1, d ∷ []), s);
}

abbrev creates : CreateCalls ℕ ℕ ℕ ℕ
creates = record {
  create_directory = λ path r s. ((pos 1, pos 0), s);
  set_security_info = λ d sid acl s. (0, s);
}

two_entries : private_acl_size 12 (some 12) ≡ ok 48
unfolding private_acl_size
two_entries = refl

created :
    create_or_open_private_directory private_volume creates private_path.components 0 ≡ (ok 0, 1)
unfolding create_or_open_private_directory descriptor_probe_size
created = refl

create_or_open-IsPrivateDirectory_example :
    IsPrivateDirectory private_volume creates private_path.components 0
create_or_open-IsPrivateDirectory_example =
    create_or_open-IsPrivateDirectory private_volume creates private_path.components 0 1 0 created

captured_in :
    capture_directory private_volume creates 1
      (λ root. root)
      (private_path ∷ [])
      (λ root s. (ok root, s))
      0
    ≡ (ok (private_path, 0 ∷ 1 ∷ 2 ∷ 3 ∷ []), 4)
unfolding capture_directory descriptor_probe_size
captured_in = refl

capture_directory-IsBound_example :
    (root : WindowsPath × List ℕ) × (child : ℕ) × ((0 ∷ 1 ∷ 2 ∷ 3 ∷ []) ≡ root.1 ++ child ∷ [])
    × Any
        (λ candidate. IsBound private_volume creates 1 (λ root. root) candidate root)
        (private_path ∷ [])
    × IsPrivateDirectory private_volume creates private_path.components child
capture_directory-IsBound_example =
    capture_directory-IsBound private_volume creates 1 (λ root. root) (private_path ∷ [])
      (λ root s. (ok root, s)) 0 4 private_path (0 ∷ 1 ∷ 2 ∷ 3 ∷ []) captured_in
