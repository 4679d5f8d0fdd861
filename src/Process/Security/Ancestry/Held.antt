-- ===== src/Process/Security/Ancestry/Held.antt =====
-- What the directories have in common that are held: `guard_trusted_directory_ancestry` of
-- tools/fs2-dev/src/process/windows_security.rs.
use fs2_turbo.Base.{
  ℕ, zero, suc, String, Bool, true, false, if◌then◌else◌, List, [], ◌∷◌, ◌++◌, Option, none, some,
  ◌≡◌, refl, ap, Result, ok, err, map_ok, All,
}
use mathlib.Core.Path.{subst}
use fs2_turbo.Base.Io.{Io, lift, ◌>>=◌}
use fs2_turbo.Process.Security.{AncestorRole}
use fs2_turbo.Process.Security.Identity.{Security}
use fs2_turbo.Process.Security.Descriptor.{Descriptor, verify_trusted_descriptor}
use fs2_turbo.Process.Security.Path.{Component, WindowsPath, reject_ambiguous_path_with}
use fs2_turbo.Process.Security.Ancestry.{
  AncestrySystem, private_security, has_parent, read_access, checked, open_directory,
  reject_reparse_metadata, read_security_descriptor, verify_trusted_ancestor, open_ancestor,
  open_ancestry_directory, final_directory_path, directory_identity, same_identity, last_of,
  retain_matching_ancestry, retain_parents, retain_physical_root_ancestry, retained, kept,
  retain_target, hold, guard_components, require_absolute, guard_trusted_directory_ancestry,
}
use fs2_turbo.Base.Io.Chains.{bind-ok, EndsIn, bind-EndsIn}

All-append {ℓ κ} :
    {A : Type ℓ} (P : A → Type κ) (xs ys : List A) → All P xs → All P ys → All P (xs ++ ys)
All-append P [] ys p q = q
All-append P (x ∷ xs) ys (p, ps) q = (p, All-append P xs ys ps q)

-- The same of both branches of a test.
pub if-EndsIn :
    {S A : Type 0} (b : Bool) (m n : Io S A) (P : A → S → Type 0)
    → EndsIn m P
    → EndsIn n P
    → EndsIn (if b then m else n) P
if-EndsIn true m n P p q = p
if-EndsIn false m n P p q = q

map_ok-const :
    {B : Type 0} (r : Result (Unit {0})) (b b' : B)
    → map_ok (λ _. b) r ≡ ok b'
    → (b ≡ b') × (r ≡ ok tt)
map_ok-const (ok _) b b' h = (cc, refl)
map_ok-const (err e) b b' h = absurd cc

pub result_inj : {A : Type 0} {a a' : A} → ok a ≡ ok a' → a ≡ a'
result_inj p = cc

module _ {S D A R : Type 0} (W : AncestrySystem S D A R) where
  -- A directory whose descriptor was read from its handle and found to be that of a trusted ancestor.
  pub record IsVetted (d : D) : Type 0 where
    pub path : List Component
    pub security : Security A R
    pub asked : S
    pub told : S
    pub is_user : private_security W asked ≡ (ok security, told)
    pub role : AncestorRole
    pub before : S
    pub after : S
    pub descriptor : Descriptor
    pub read : read_security_descriptor W d before ≡ (ok descriptor, after)
    pub trusted :
        verify_trusted_descriptor W.equal_sid (W.show path) security.identities role descriptor
        ≡ ok tt

  pub checked-ok :
      (check : D → Io S (Unit {0})) (d d' : D) (s s' : S)
      → checked W check d s ≡ (ok d', s')
      → (d ≡ d') × ((check d s).0 ≡ ok tt)
  unfolding checked
  checked-ok check d d' s s' h = map_ok-const (check d s).0 d d' (ap (λ r. r.0) h)

  open_ancestor-EndsIn :
      (path : List Component) (role : AncestorRole)
      → EndsIn (open_ancestor W path role) (λ d _. IsVetted d)
  unfolding open_ancestor verify_trusted_ancestor
  open_ancestor-EndsIn path role s₀ sₑ dₑ run =
      let (security, t, is_user, opening) =
        bind-ok (private_security W)
          (λ x. open_directory W path read_access >>= λ d.
            checked W (verify_trusted_ancestor W path x.identities role) d)
          s₀ sₑ dₑ run in
      bind-EndsIn (open_directory W path read_access)
        (λ d. checked W (verify_trusted_ancestor W path security.identities role) d)
        (λ d _. IsVetted d)
        (λ d. λ s s' d' h.
          let verifies = verify_trusted_ancestor W path security.identities role in
          let (same, good) = checked-ok verifies d d' s s' h in
          let (descriptor, s₁, read, later) =
            bind-ok (read_security_descriptor W d)
              (λ x.
                lift
                  (verify_trusted_descriptor W.equal_sid (W.show path) security.identities role x))
              s (verifies d s).1 tt (ap (λ r. (r, (verifies d s).1)) good) in
          subst IsVetted same (record {
            path = path;
            security = security;
            asked = s₀;
            told = t;
            is_user = is_user;
            role = role;
            before = s;
            after = s₁;
            descriptor = descriptor;
            read = read;
            trusted = ap (λ r. r.0) later;
          }))
        t sₑ dₑ opening

  pub kept-ok :
      (current : List Component) (r : Result D) (d : D) → kept W current r ≡ ok d → r ≡ ok d
  unfolding kept
  kept-ok current (ok d') d h = h
  kept-ok current (err e) d h = absurd cc

  retained-EndsIn : (current : List Component) → EndsIn (retained W current) (λ d _. IsVetted d)
  unfolding retained open_ancestry_directory
  retained-EndsIn current s s' d h =
      let opened = open_ancestry_directory W current s in
      let good : opened ≡ (ok d, s') =
        let same = kept-ok current opened.0 d (ap (λ r. r.0) h) in
        let moved = ap (λ r. r.1) h in cc in
      bind-EndsIn (reject_reparse_metadata W current) _ (λ d _. IsVetted d)
        (λ _.
          open_ancestor-EndsIn current
            (if has_parent current then AncestorRole.directory else AncestorRole.volume_root))
        s s' d good

  -- Every directory of a list is vetted.
  abbrev pub AllVetted : List D → S → Type 0
  AllVetted held s = All IsVetted held

  retain_target-EndsIn :
      (d : D) (ancestry held : List D) (target : Option D)
      → All IsVetted ancestry
      → All IsVetted held
      → EndsIn (retain_target W d ancestry held target) AllVetted
  unfolding retain_target
  retain_target-EndsIn d ancestry held none vetted before s s' l h = absurd cc
  retain_target-EndsIn d ancestry held (some target) vetted before s s' l h =
      bind-EndsIn (directory_identity W d) _ _
        (λ k. bind-EndsIn (lift (directory_identity W target s).0) _ _ (λ k'.
          bind-EndsIn (lift (same_identity W k k')) (λ _. lift (ok (held ++ ancestry))) AllVetted
            (λ _. λ s s' l e.
              subst (All IsVetted) (result_inj (ap (λ r. r.0) e))
                (All-append IsVetted held ancestry before vetted))))
        (directory_identity W target s).1 s' l h

  module _ (guard : WindowsPath → Io S (List D))
      (guarded : (p : WindowsPath) → EndsIn (guard p) AllVetted) where
    retain_parents-EndsIn :
        (d : D) (held : List D) (physical : WindowsPath)
        → All IsVetted held
        → EndsIn (retain_parents W guard d held physical) AllVetted
    unfolding retain_parents retain_matching_ancestry
    retain_parents-EndsIn d held physical before =
        if-EndsIn (has_parent physical.components) _ _ AllVetted
          (λ s s' l h.
            let (ancestry, s₁, found, later) =
              bind-ok (guard physical) (λ ancestry. retain_matching_ancestry W d ancestry held) s s'
                l h in
            retain_target-EndsIn d ancestry held (last_of ancestry)
              (guarded physical s s₁ ancestry found) before s₁ s' l later)
          (λ s s' l h. subst (All IsVetted) (result_inj (ap (λ r. r.0) h)) before)

    retain_physical-EndsIn :
        (path : List Component) (d : D) (held : List D)
        → All IsVetted held
        → EndsIn (retain_physical_root_ancestry W guard path d held) AllVetted
    unfolding retain_physical_root_ancestry
    retain_physical-EndsIn path d held before =
        if-EndsIn (has_parent path) _ _ AllVetted
          (λ s s' l h. subst (All IsVetted) (result_inj (ap (λ r. r.0) h)) before)
          (bind-EndsIn (final_directory_path W d) (retain_parents W guard d held) AllVetted
            (λ physical. retain_parents-EndsIn d held physical before))

    hold-EndsIn :
        (current : List Component) (held : List D)
        → All IsVetted held
        → EndsIn (hold W guard current held) AllVetted
    unfolding hold
    hold-EndsIn current held before s s' l h =
        let (d, s₁, opened, later) =
          bind-ok (retained W current)
            (λ d. retain_physical_root_ancestry W guard current d held >>= λ held'.
              lift (ok (held' ++ d ∷ [])))
            s s' l h in
        let (held', s₂, kept, last) =
          bind-ok (retain_physical_root_ancestry W guard current d held)
            (λ held'. lift (ok (held' ++ d ∷ []))) s₁ s' l later in
        subst (All IsVetted) (result_inj (ap (λ r. r.0) last)) (
          All-append IsVetted held' (d ∷ [])
            (retain_physical-EndsIn current d held before s₁ s₂ held' kept)
            (retained-EndsIn current s s₁ d opened, tt))

    components-EndsIn :
        (shown : String) (current : List Component) (held : List D) (cs : List Component)
        → All IsVetted held
        → EndsIn (guard_components W guard shown current held cs) AllVetted
    unfolding guard_components
    components-EndsIn shown current held [] before s s' l h =
        subst (All IsVetted) (result_inj (ap (λ r. r.0) h)) before
    components-EndsIn shown current held (Component.prefix p ∷ cs) before s s' l h =
        components-EndsIn shown (current ++ Component.prefix p ∷ []) held cs before s s' l h
    components-EndsIn shown current held (Component.cur_dir ∷ cs) before s s' l h =
        components-EndsIn shown current held cs before s s' l h
    components-EndsIn shown current held (Component.parent_dir ∷ cs) before s s' l h = absurd cc
    components-EndsIn shown current held (Component.root_dir ∷ cs) before s s' l h =
        let (held', s₁, more, later) =
          bind-ok (hold W guard (current ++ Component.root_dir ∷ []) held)
            (λ held'. guard_components W guard shown (current ++ Component.root_dir ∷ []) held' cs)
            s s' l h in
        components-EndsIn shown (current ++ Component.root_dir ∷ []) held' cs
          (hold-EndsIn (current ++ Component.root_dir ∷ []) held before s s₁ held' more) s₁ s' l
          later
    components-EndsIn shown current held (Component.normal name ∷ cs) before s s' l h =
        let (held', s₁, more, later) =
          bind-ok (hold W guard (current ++ Component.normal name ∷ []) held)
            (λ held'.
              guard_components W guard shown (current ++ Component.normal name ∷ []) held' cs)
            s s' l h in
        components-EndsIn shown (current ++ Component.normal name ∷ []) held' cs
          (hold-EndsIn (current ++ Component.normal name ∷ []) held before s s₁ held' more) s₁ s' l
          later

  -- When the ancestry of a path is held, every directory in the list, those of the real parents of
  -- an aliased drive included, has had its descriptor read from its handle and accepted as that of
  -- an ancestor that is trusted by the user of the process.
  pub guard_trusted_directory_ancestry-IsVetted :
      (aliases : ℕ) (allow : Bool) (path : WindowsPath) (s s' : S) (held : List D)
      → guard_trusted_directory_ancestry W aliases allow path s ≡ (ok held, s')
      → All IsVetted held
  unfolding guard_trusted_directory_ancestry
  guard_trusted_directory_ancestry-IsVetted zero allow path s s' held h = absurd cc
  guard_trusted_directory_ancestry-IsVetted (suc aliases) allow path s s' held h =
      bind-EndsIn (lift (reject_ambiguous_path_with W.from_code W.to_string_lossy allow path)) _
        AllVetted
        (λ _.
          bind-EndsIn (lift (require_absolute W path))
            (λ _.
              guard_components W (guard_trusted_directory_ancestry W aliases true) path.display []
                [] path.components)
            AllVetted
            (λ _.
              components-EndsIn (guard_trusted_directory_ancestry W aliases true)
                (guard_trusted_directory_ancestry-IsVetted aliases true) path.display [] []
                path.components tt))
        s s' held h
