-- ===== src/Process/Security/Ancestry/Covered.antt =====
-- Which directories are held for a path: `guard_trusted_directory_ancestry` of
-- tools/fs2-dev/src/process/windows_security.rs.
use fs2_turbo.Base.{
  ℕ, zero, suc, String, Bool, true, List, [], ◌∷◌, ◌++◌, Option, none, some, ◌≡◌, inl, inr, refl,
  ap, ok, All, Any,
}
use mathlib.Core.Path.{subst}
use fs2_turbo.Base.Io.{Io, lift, ◌>>=◌}
use fs2_turbo.Base.Io.Chains.{bind-ok, EndsIn, bind-EndsIn}
use fs2_turbo.Process.Security.Path.{Component, WindowsPath, reject_ambiguous_path_with}
use fs2_turbo.Process.Security.Ancestry.{
  AncestrySystem, has_parent, open_ancestry_directory, final_directory_path, directory_identity,
  same_identity, last_of, retain_matching_ancestry, retain_parents, retain_physical_root_ancestry,
  retained, kept, retain_target, hold, guard_components, require_absolute,
  guard_trusted_directory_ancestry,
}
use fs2_turbo.Process.Security.Ancestry.Held.{if-EndsIn, result_inj, kept-ok}

-- The directories above and at a path, from its root down, each by its components.
abbrev pub ancestors : List Component → List Component → List (List Component)
ancestors current [] = []
ancestors current (Component.prefix p ∷ cs) = ancestors (current ++ Component.prefix p ∷ []) cs
ancestors current (Component.cur_dir ∷ cs) = ancestors current cs
ancestors current (Component.parent_dir ∷ cs) = []
ancestors current (Component.root_dir ∷ cs) =
    (current ++ Component.root_dir ∷ []) ∷ ancestors (current ++ Component.root_dir ∷ []) cs
ancestors current (Component.normal name ∷ cs) =
    (current ++ Component.normal name ∷ []) ∷ ancestors (current ++ Component.normal name ∷ []) cs

-- What is in a list is in another.
abbrev Keeps : {D : Type 0} → List D → List D → Type 0
Keeps {D} held l = (e : D) → Any (λ x. x ≡ e) held → Any (λ x. x ≡ e) l

Keeps-left : {D : Type 0} (xs ys : List D) → Keeps xs (xs ++ ys)
Keeps-left [] ys e h = absurd h
Keeps-left (x ∷ xs) ys e (inl h) = inl h
Keeps-left (x ∷ xs) ys e (inr h) = inr (Keeps-left xs ys e h)

last_in : {D : Type 0} (xs : List D) (d : D) → Any (λ x. x ≡ d) (xs ++ d ∷ [])
last_in [] d = inl refl
last_in (x ∷ xs) d = inr (last_in xs d)

module _ {S D A R : Type 0} (W : AncestrySystem S D A R) where
  -- A directory of the list was opened by this path, which is what checks it.
  pub record IsHeldAt (held : List D) (path : List Component) : Type 0 where
    pub directory : D
    pub is_held : Any (λ x. x ≡ directory) held
    pub before : S
    pub after : S
    pub opened : open_ancestry_directory W path before ≡ (ok directory, after)

  abbrev KeepsAll : List D → List D → S → Type 0
  KeepsAll held l s = Keeps held l

  All-Keeps :
      (held l : List D) (paths : List (List Component))
      → Keeps held l
      → All (IsHeldAt held) paths
      → All (IsHeldAt l) paths
  All-Keeps held l [] keeps all = tt
  All-Keeps held l (path ∷ paths) keeps (at, all) = (
    record {
      directory = at.directory;
      is_held = keeps at.directory at.is_held;
      before = at.before;
      after = at.after;
      opened = at.opened;
    },
    All-Keeps held l paths keeps all,
  )

  retain_target-Keeps :
      (d : D) (ancestry held : List D) (target : Option D)
      → EndsIn (retain_target W d ancestry held target) (KeepsAll held)
  unfolding retain_target
  retain_target-Keeps d ancestry held none s s' l h = absurd cc
  retain_target-Keeps d ancestry held (some target) s s' l h =
      bind-EndsIn (directory_identity W d) _ (KeepsAll held)
        (λ k. bind-EndsIn (lift (directory_identity W target s).0) _ (KeepsAll held) (λ k'.
          bind-EndsIn (lift (same_identity W k k')) (λ _. lift (ok (held ++ ancestry)))
            (KeepsAll held)
            (λ _. λ s s' l e.
              subst (Keeps held) (result_inj (ap (λ r. r.0) e)) (Keeps-left held ancestry))))
        (directory_identity W target s).1 s' l h

  module _ (guard : WindowsPath → Io S (List D)) where
    unchanged : (held : List D) → EndsIn (lift (ok held)) (KeepsAll held)
    unchanged held s s' l h = subst (Keeps held) (result_inj (ap (λ r. r.0) h)) (λ e p. p)

    retain_physical-Keeps :
        (path : List Component) (d : D) (held : List D)
        → EndsIn (retain_physical_root_ancestry W guard path d held) (KeepsAll held)
    unfolding retain_physical_root_ancestry retain_parents retain_matching_ancestry
    retain_physical-Keeps path d held =
        if-EndsIn (has_parent path) _ _ (KeepsAll held) (unchanged held) (
          bind-EndsIn (final_directory_path W d) (retain_parents W guard d held) (KeepsAll held)
            (λ physical.
              if-EndsIn (has_parent physical.components) _ _ (KeepsAll held)
                (bind-EndsIn (guard physical)
                  (λ ancestry. retain_matching_ancestry W d ancestry held) (KeepsAll held)
                  (λ ancestry. retain_target-Keeps d ancestry held (last_of ancestry)))
                (unchanged held)))

    hold-IsHeldAt :
        (current : List Component) (held : List D)
        → EndsIn (hold W guard current held) (λ l _. IsHeldAt l current × Keeps held l)
    unfolding hold retained
    hold-IsHeldAt current held s s' l h =
        let (d, s₁, opened, later) =
          bind-ok (retained W current)
            (λ d. retain_physical_root_ancestry W guard current d held >>= λ held'.
              lift (ok (held' ++ d ∷ [])))
            s s' l h in
        let (held', s₂, kept, last) =
          bind-ok (retain_physical_root_ancestry W guard current d held)
            (λ held'. lift (ok (held' ++ d ∷ []))) s₁ s' l later in
        let keeps = retain_physical-Keeps current d held s₁ s₂ held' kept in
        let answer = open_ancestry_directory W current s in
        let good = kept-ok W current answer.0 d (ap (λ r. r.0) opened) in
        subst (λ l. IsHeldAt l current × Keeps held l) (result_inj (ap (λ r. r.0) last))
          (
            record {
              directory = d;
              is_held = last_in held' d;
              before = s;
              after = answer.1;
              opened = ap (λ r. (r, answer.1)) good;
            },
            λ e p. Keeps-left held' (d ∷ []) e (keeps e p),
          )

    -- The path has been held, and so is the rest of it.
    abbrev AllHeld : List D → List (List Component) → List D → S → Type 0
    AllHeld held paths l s = All (IsHeldAt l) paths × Keeps held l

    held_then :
        (current : List Component) (held : List D) (paths : List (List Component))
        (next : List D → Io S (List D))
        → ((held' : List D) → EndsIn (next held') (AllHeld held' paths))
        → EndsIn (hold W guard current held >>= next) (AllHeld held (current ∷ paths))
    held_then current held paths next rest s s' l h =
        let (held', s₁, more, later) = bind-ok (hold W guard current held) next s s' l h in
        let (at, keeps) = hold-IsHeldAt current held s s₁ held' more in
        let (others, still) = rest held' s₁ s' l later in
        let (first, u) = All-Keeps held' l (current ∷ []) still (at, tt) in
        ((first, others), λ e p. still e (keeps e p))

    components-AllHeld :
        (shown : String) (current : List Component) (held : List D) (cs : List Component)
        → EndsIn
            (guard_components W guard shown current held cs)
            (AllHeld held (ancestors current cs))
    unfolding guard_components
    components-AllHeld shown current held [] s s' l h = (tt, unchanged held s s' l h)
    components-AllHeld shown current held (Component.prefix p ∷ cs) s s' l h =
        components-AllHeld shown (current ++ Component.prefix p ∷ []) held cs s s' l h
    components-AllHeld shown current held (Component.cur_dir ∷ cs) s s' l h =
        components-AllHeld shown current held cs s s' l h
    components-AllHeld shown current held (Component.parent_dir ∷ cs) s s' l h = absurd cc
    components-AllHeld shown current held (Component.root_dir ∷ cs) s s' l h =
        held_then (current ++ Component.root_dir ∷ []) held
          (ancestors (current ++ Component.root_dir ∷ []) cs)
          (λ held'. guard_components W guard shown (current ++ Component.root_dir ∷ []) held' cs)
          (λ held'. components-AllHeld shown (current ++ Component.root_dir ∷ []) held' cs) s s' l h
    components-AllHeld shown current held (Component.normal name ∷ cs) s s' l h =
        held_then (current ++ Component.normal name ∷ []) held
          (ancestors (current ++ Component.normal name ∷ []) cs)
          (λ held'. guard_components W guard shown (current ++ Component.normal name ∷ []) held' cs)
          (λ held'. components-AllHeld shown (current ++ Component.normal name ∷ []) held' cs) s s'
          l h

  -- When the ancestry of a path is held, a directory is in the list for each one above or at the path,
  -- that was opened and checked by its name.
  pub guard_trusted_directory_ancestry-IsHeldAt :
      (aliases : ℕ) (allow : Bool) (path : WindowsPath) (s s' : S) (held : List D)
      → guard_trusted_directory_ancestry W aliases allow path s ≡ (ok held, s')
      → All (IsHeldAt held) (ancestors [] path.components)
  unfolding guard_trusted_directory_ancestry
  guard_trusted_directory_ancestry-IsHeldAt zero allow path s s' held h = absurd cc
  guard_trusted_directory_ancestry-IsHeldAt (suc aliases) allow path s s' held h =
      let (u, s₁, plain, h₁) =
        bind-ok (lift (reject_ambiguous_path_with W.from_code W.to_string_lossy allow path))
          (λ _. lift (require_absolute W path) >>= λ _.
            guard_components W (guard_trusted_directory_ancestry W aliases true) path.display [] []
              path.components)
          s s' held h in
      let (v, s₂, absolute, h₂) =
        bind-ok (lift (require_absolute W path))
          (λ _.
            guard_components W (guard_trusted_directory_ancestry W aliases true) path.display [] []
              path.components)
          s₁ s' held h₁ in
      (components-AllHeld (guard_trusted_directory_ancestry W aliases true) path.display [] []
        path.components s₂ s' held h₂).0
