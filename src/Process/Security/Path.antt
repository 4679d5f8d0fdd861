-- ===== src/Process/Security/Path.antt =====
-- Which Windows paths may hold a capture directory: `reject_ambiguous_path_with`,
-- `reserved_device_name` and `is_local_fixed_drive_with_options` of
-- tools/fs2-dev/src/process/windows_security.rs.
pub mod Plain
pub mod Devices
pub mod Letters
use fs2_turbo.Base.{
  ℕ, ◌+◌, ◌-◌, String, Bool, true, false, not, ◌&&◌, ◌||◌, ◌==◌, leb, if◌then◌else◌, List, [], ◌∷◌,
  Option, none, some, Error, Result, ok, err, ◌>>=◌, ◌>>◌, fail_if,
}
use Prim.Native.String
use Prim.Native.String.{len, slice}
use Prim.Native.Char.{Char, code}
use text.Mathlib.Text
use text.Mathlib.Text.{starts_with}
use fs2_turbo.Base.Text.{concat}
use fs2_turbo.Process.Security.{invalid_data}

-- `std::path::Prefix` and `std::path::Component`.
pub data Prefix : Type 0 where
  verbatim verbatim_unc device_ns unc : Prefix
  verbatim_disk : ℕ → Prefix
  disk : ℕ → Prefix

pub data Component : Type 0 where
  prefix : Prefix → Component
  root_dir cur_dir parent_dir : Component
  normal : List ℕ → Component

-- A path, by what its methods answer.
pub record WindowsPath : Type 0 where
  pub components : List Component
  pub is_absolute : Bool
  pub display : String

-- `str::to_ascii_uppercase`, with `from_code` for the character of a number.
unfoldable pub to_ascii_uppercase : (ℕ → Char) → String → String
to_ascii_uppercase from_code String.[] = ""
to_ascii_uppercase from_code (String.◌∷◌ c s) =
    String.◌∷◌ (if leb b'a' (code c) && leb (code c) b'z' then from_code (code c - 32) else c)
      (to_ascii_uppercase from_code s)

-- `matches!` of a text.
unfoldable pub one_of : List String → String → Bool
one_of [] s = false
one_of (name ∷ names) s = Text.◌==◌ s name || one_of names s

unfoldable pub strip_prefix : String → String → Option String
strip_prefix start s = if starts_with s start then some (slice s (len start) (len s)) else none

-- The numbers of a serial or a parallel port; the last three are superscripts.
abbrev pub port_numbers : List String
port_numbers = "1" ∷ "2" ∷ "3" ∷ "4" ∷ "5" ∷ "6" ∷ "7" ∷ "8" ∷ "9" ∷ "¹" ∷ "²" ∷ "³" ∷ []

abbrev pub device_names : List String
device_names = "CON" ∷ "PRN" ∷ "AUX" ∷ "NUL" ∷ "CLOCK$" ∷ "CONIN$" ∷ "CONOUT$" ∷ []

unfoldable pub is_port : Option String → Option String → Bool
unfolding one_of
is_port (some number) _ = one_of port_numbers number
is_port none (some number) = one_of port_numbers number
is_port none none = false

unfoldable pub reserved_device_name : (ℕ → Char) → String → Bool
unfolding to_ascii_uppercase one_of strip_prefix is_port
reserved_device_name from_code name =
    let upper = to_ascii_uppercase from_code name in
    one_of device_names upper || is_port (strip_prefix "COM" upper) (strip_prefix "LPT" upper)

-- `name.split('.').next()`.
unfoldable pub basename : String → String
basename String.[] = ""
basename (String.◌∷◌ c name) =
    let rest = basename name in if code c == b'.' then "" else String.◌∷◌ c rest

unfoldable pub has_forbidden_unit : List ℕ → Bool
has_forbidden_unit [] = false
has_forbidden_unit (unit ∷ units) = unit == 0 || unit == 0x3a || has_forbidden_unit units

abbrev pub first : List ℕ → Option ℕ
first [] = none
first (unit ∷ units) = some unit

abbrev pub last : List ℕ → Option ℕ
last [] = none
last (unit ∷ []) = some unit
last (unit ∷ next ∷ units) = last (next ∷ units)

abbrev pub is_unit : Option ℕ → ℕ → Bool
is_unit (some unit) expected = unit == expected
is_unit none expected = false

unfoldable pub normalized_alias : List ℕ → Bool
normalized_alias encoded =
    is_unit (first encoded) 0x20 || is_unit (last encoded) 0x20 || is_unit (last encoded) 0x2e

unfoldable pub supported : Bool → Prefix → Bool
supported allow (Prefix.disk letter) = true
supported allow Prefix.unc = true
supported allow (Prefix.verbatim_disk letter) = allow
supported allow Prefix.verbatim = false
supported allow Prefix.verbatim_unc = false
supported allow Prefix.device_ns = false

abbrev pub drive_fixed : ℕ
drive_fixed = 3

abbrev pub reserved_component : String → Error
reserved_component shown =
    invalid_data
      (concat ("capture path contains a Win32-normalized or reserved component: " ∷ shown ∷ []))

-- `to_string_lossy` is the standard library's.
module _ (from_code : ℕ → Char) (to_string_lossy : List ℕ → String)
    (allow_canonical_verbatim_disk : Bool) where
  unfoldable pub check_component : String → Component → Result (Unit {0})
  unfolding supported has_forbidden_unit normalized_alias basename reserved_device_name
  check_component shown (Component.prefix p) =
      fail_if (not (supported allow_canonical_verbatim_disk p)) (
        invalid_data
          (concat ("capture path uses an unsupported Windows namespace prefix: " ∷ shown ∷ [])))
  check_component shown (Component.normal encoded) =
      fail_if
        (has_forbidden_unit encoded
          || normalized_alias encoded
          || reserved_device_name from_code (basename (to_string_lossy encoded)))
        (reserved_component shown)
  check_component shown Component.root_dir = ok tt
  check_component shown Component.cur_dir = ok tt
  check_component shown Component.parent_dir = ok tt

  unfoldable pub check_components : String → List Component → Result (Unit {0})
  unfolding check_component
  check_components shown [] = ok tt
  check_components shown (component ∷ components) =
      check_component shown component >> check_components shown components

  unfoldable pub reject_ambiguous_path_with : WindowsPath → Result (Unit {0})
  unfolding check_components
  reject_ambiguous_path_with path = check_components path.display path.components

  abbrev pub drive_letter : List Component → Option ℕ
  drive_letter (Component.prefix (Prefix.disk letter) ∷ components) = some letter
  drive_letter (Component.prefix (Prefix.verbatim_disk letter) ∷ components) =
      if allow_canonical_verbatim_disk then some letter else none
  drive_letter (Component.prefix Prefix.verbatim ∷ components) = none
  drive_letter (Component.prefix Prefix.verbatim_unc ∷ components) = none
  drive_letter (Component.prefix Prefix.device_ns ∷ components) = none
  drive_letter (Component.prefix Prefix.unc ∷ components) = none
  drive_letter (Component.root_dir ∷ components) = none
  drive_letter (Component.cur_dir ∷ components) = none
  drive_letter (Component.parent_dir ∷ components) = none
  drive_letter (Component.normal name ∷ components) = none
  drive_letter [] = none

  -- The answer of `GetDriveTypeW` to a root that ends in a zero.
  unfoldable pub is_local_fixed_drive_with_options : (List ℕ → ℕ) → WindowsPath → Bool
  is_local_fixed_drive_with_options drive_type path = elim (drive_letter path.components) [
    | none ↦ false
    | some letter ↦ drive_type (letter ∷ b':' ∷ b'\\' ∷ 0 ∷ []) == drive_fixed
  ]

  unfoldable pub require_local_fixed_volume_with :
      (List ℕ → ℕ) → String → WindowsPath → Result (Unit {0})
  unfolding reject_ambiguous_path_with is_local_fixed_drive_with_options
  require_local_fixed_volume_with drive_type label path = do
    reject_ambiguous_path_with path
    fail_if (not path.is_absolute)
        (invalid_data (concat (label ∷ " must be absolute: " ∷ path.display ∷ [])))
    fail_if (not (is_local_fixed_drive_with_options drive_type path)) (
        invalid_data (
          concat (
            label
            ∷ " must reside on a local fixed Windows volume; UNC, mapped remote, removable, optical, RAM-disk, unknown, and unavailable roots are not accepted: "
            ∷ path.display ∷ [])))
