-- ===== src/Process/Security/Path/Plain.antt =====
-- Which paths are accepted: `reject_ambiguous_path_with` of
-- tools/fs2-dev/src/process/windows_security.rs.
use fs2_turbo.Base.{
  ℕ, String, Bool, true, false, ◌||◌, List, [], ◌∷◌, Option, none, some, ◌≡◌, ◌≢◌, ◌↔◌, refl, Error,
  ok, fail_if, bind-ok, arith, All,
}
use Prim.Native.Char.{Char}
use fs2_turbo.Process.Security.Path
use fs2_turbo.Process.Security.Path.Devices.{IsDevice, IsDevice-reserved, reserved-IsDevice}
use fs2_turbo.Process.Security.Path.Letters.{IsStem, IsCapitals, basename-IsStem, IsStem-basename}
use fs2_turbo.Process.Security.Path.{
  Prefix, Component, basename, reserved_device_name, has_forbidden_unit, first, last,
  normalized_alias, supported, check_component, check_components, reject_ambiguous_path_with,
}

-- A unit that Windows does not read as the end of the name or the start of a stream's name.
abbrev pub IsOrdinary : ℕ → Type 0
IsOrdinary unit = (unit ≢ 0) × (unit ≢ 0x3a)

passed :
    (a b c : Bool) (e : Error)
    → fail_if (a || b || c) e ≡ ok tt
    → (a ≡ false) × (b ≡ false) × (c ≡ false)
passed false false false e h = (refl, refl, refl)
passed true b c e h = absurd cc
passed false true c e h = absurd cc
passed false false true e h = absurd cc

refused : (b : Bool) → (b ≢ true) → b ≡ false
refused false h = refl
refused true h = absurd (h refl)

module _ (from_code : ℕ → Char) (capitals : IsCapitals from_code)
    (to_string_lossy : List ℕ → String) (allow : Bool) where
  -- A component that names on disk what it says.
  pub data IsPlain : Component → Type 0 where
    drive : {letter : ℕ} → IsPlain (Component.prefix (Prefix.disk letter))
    share : IsPlain (Component.prefix Prefix.unc)
    canonical :
        {letter : ℕ} → allow ≡ true → IsPlain (Component.prefix (Prefix.verbatim_disk letter))
    root : IsPlain Component.root_dir
    current : IsPlain Component.cur_dir
    parent : IsPlain Component.parent_dir
    name :
        {encoded : List ℕ}
        → All IsOrdinary encoded
        → first encoded ≢ some 0x20
        → last encoded ≢ some 0x20
        → last encoded ≢ some 0x2e
        → {stem : String} → IsStem (to_string_lossy encoded) stem
        → ¬ IsDevice stem
        → IsPlain (Component.normal encoded)

  forbidden_iff : (encoded : List ℕ) → (has_forbidden_unit encoded ≡ false) ↔ All IsOrdinary encoded
  unfolding has_forbidden_unit
  forbidden_iff [] = (λ _. tt, λ _. refl)
  forbidden_iff (unit ∷ units) = let rest = forbidden_iff units in ground arith

  alias_iff :
      (f l : Option ℕ)
      → ((Path.is_unit f 0x20 || Path.is_unit l 0x20 || Path.is_unit l 0x2e) ≡ false)
        ↔ ((f ≢ some 0x20) × (l ≢ some 0x20) × (l ≢ some 0x2e))
  alias_iff (some f) (some l) = ground arith
  alias_iff (some f) none = ground arith
  alias_iff none (some l) = ground arith
  alias_iff none none = ground arith

  component-IsPlain :
      (shown : String) (c : Component)
      → check_component from_code to_string_lossy allow shown c ≡ ok tt
      → IsPlain c
  unfolding check_component normalized_alias supported
  component-IsPlain shown (Component.prefix (Prefix.disk letter)) h = drive
  component-IsPlain shown (Component.prefix Prefix.unc) h = share
  component-IsPlain shown (Component.prefix (Prefix.verbatim_disk letter)) h =
      canonical (ground arith)
  component-IsPlain shown (Component.prefix Prefix.verbatim) h = absurd cc
  component-IsPlain shown (Component.prefix Prefix.verbatim_unc) h = absurd cc
  component-IsPlain shown (Component.prefix Prefix.device_ns) h = absurd cc
  component-IsPlain shown Component.root_dir h = root
  component-IsPlain shown Component.cur_dir h = current
  component-IsPlain shown Component.parent_dir h = parent
  component-IsPlain shown (Component.normal encoded) h =
      let (ordinary, plain, free) =
        passed (has_forbidden_unit encoded) (normalized_alias encoded)
          (reserved_device_name from_code (basename (to_string_lossy encoded)))
          (Path.reserved_component shown) h in
      let (a, b, c) = (alias_iff (first encoded) (last encoded)).0 plain in
      name ((forbidden_iff encoded).0 ordinary) a b c (basename-IsStem (to_string_lossy encoded))
        (λ d. let reserved = IsDevice-reserved from_code capitals _ d in absurd cc)

  IsPlain-component :
      (shown : String) (c : Component)
      → IsPlain c
      → check_component from_code to_string_lossy allow shown c ≡ ok tt
  unfolding check_component normalized_alias supported
  IsPlain-component shown (Component.prefix p) drive = refl
  IsPlain-component shown (Component.prefix p) share = refl
  IsPlain-component shown (Component.prefix p) (canonical h) = rw h refl
  IsPlain-component shown Component.root_dir root = refl
  IsPlain-component shown Component.cur_dir current = refl
  IsPlain-component shown Component.parent_dir parent = refl
  IsPlain-component shown (Component.normal encoded) (name units a b c stem free) =
      let ordinary = (forbidden_iff encoded).1 units in
      let plain = (alias_iff (first encoded) (last encoded)).1 (a, b, c) in
      let same = IsStem-basename stem in
      let unreserved : reserved_device_name from_code (basename (to_string_lossy encoded)) ≡ false =
        refused _ (λ h. free (reserved-IsDevice from_code capitals _ (rw same at h))) in
      ground arith

  components_iff :
      (shown : String) (cs : List Component)
      → (check_components from_code to_string_lossy allow shown cs ≡ ok tt) ↔ All IsPlain cs
  unfolding check_components
  components_iff shown [] = (λ _. tt, λ _. refl)
  components_iff shown (c ∷ cs) = (
    λ h.
        let (u, fine, rest) =
          bind-ok (check_component from_code to_string_lossy allow shown c)
            (λ _. check_components from_code to_string_lossy allow shown cs) tt h in
        (component-IsPlain shown c fine, (components_iff shown cs).0 rest),
    λ (plain, rest).
        rw (IsPlain-component shown c plain, check_components) ((components_iff shown cs).1 rest),
  )

  -- Where the capitals are the characters of their numbers, a path is accepted exactly when its
  -- prefix is a disk, a share or, where allowed, a verbatim disk, and each name in it has no null
  -- and no colon, does not begin with a space or end in a space or a dot, and is up to its first
  -- dot not the name of a device or a port, in small letters or capitals.
  pub reject_ambiguous_path_with_iff :
      (path : Path.WindowsPath)
      → (reject_ambiguous_path_with from_code to_string_lossy allow path ≡ ok tt)
        ↔ All IsPlain path.components
  unfolding reject_ambiguous_path_with
  reject_ambiguous_path_with_iff path = components_iff path.display path.components
