-- ===== src/Process/Capture/Root/Bound.antt =====
-- What is known of the directory for captures: `capture_root_from` and `capture_directory` of
-- tools/fs2-dev/src/process.rs.
use fs2_turbo.Base.{
  ℕ, String, false, List, [], ◌∷◌, ◌++◌, ◌≡◌, refl, ap, sym, Result, ok, err, All, Any, inl, inr,
}
use mathlib.Core.Path.{subst}
use fs2_turbo.Base.Io.{Io, lift, ◌>>=◌}
use fs2_turbo.Base.Io.Chains.{bind-ok, EndsIn}
use fs2_turbo.Process.Security.Path.{WindowsPath}
use fs2_turbo.Process.Security.Ancestry.{AncestrySystem, guard_trusted_directory_ancestry}
use fs2_turbo.Process.Security.Ancestry.Held.{
  IsVetted, if-EndsIn, result_inj, guard_trusted_directory_ancestry-IsVetted,
}
use fs2_turbo.Process.Security.Ancestry.Covered.{
  ancestors, IsHeldAt, guard_trusted_directory_ancestry-IsHeldAt,
}
use fs2_turbo.Process.Security.Create.{
  CreateCalls, create_or_open_private_directory, harden_new_private_directory,
}
use fs2_turbo.Process.Security.Create.Verified.{
  IsPrivateDirectory, create_or_open-IsPrivateDirectory, harden_new-IsPrivateDirectory,
}
use fs2_turbo.Process.Capture.{capture_file_stage}
use fs2_turbo.Process.Capture.Root.{
  bind_root, is_candidate, or_next, guarded, try_root, roots_from, capture_root_from, staged,
  capture_directory,
}

module _ {S D A R : Type 0} (W : AncestrySystem S D A R) (writes : CreateCalls S D A R)
    (aliases : ℕ) where
  module _ (joined : WindowsPath → WindowsPath) where
    -- The directory of a root, which is private, and behind which the directories above it are held: a
    -- directory for each, which was opened by its path, and all of them vetted.
    pub record IsBound (candidate : WindowsPath) (r : WindowsPath × List D) : Type 0 where
      pub is_root : joined candidate ≡ r.0
      pub held : List D
      pub root : D
      pub all_held : r.1 ≡ held ++ root ∷ []
      pub above : All (IsHeldAt W held) (ancestors [] candidate.components)
      pub vetted : All (IsVetted W) held
      pub is_private : IsPrivateDirectory W writes r.0.components root

    bind_root-EndsIn :
        (candidate : WindowsPath) (guard : List D)
        → All (IsHeldAt W guard) (ancestors [] candidate.components)
        → All (IsVetted W) guard
        → EndsIn (bind_root W writes aliases (joined candidate) guard) (λ r _. IsBound candidate r)
    unfolding bind_root
    bind_root-EndsIn candidate guard above vetted s s' r h =
        let (d, s₁, made, last) =
          bind-ok (create_or_open_private_directory W writes (joined candidate).components)
            (λ d. lift (ok (joined candidate, guard ++ d ∷ []))) s s' r h in
        subst (IsBound candidate) (result_inj (ap (λ r. r.0) last)) (record {
          is_root = refl;
          held = guard;
          root = d;
          all_held = refl;
          above = above;
          vetted = vetted;
          is_private =
              create_or_open-IsPrivateDirectory W writes (joined candidate).components s s₁ d made;
        })

    -- A kind of success that a bound root is of, and the next candidates too.
    module _ (Bound : WindowsPath × List D → Type 0) where
      or_next-EndsIn :
          (path : WindowsPath) (found : Result (WindowsPath × List D))
          (next : String → Io S (WindowsPath × List D))
          → ((r : WindowsPath × List D) → found ≡ ok r → Bound r)
          → ((said : String) → EndsIn (next said) (λ r _. Bound r))
          → EndsIn (or_next W writes aliases joined path found next) (λ r _. Bound r)
      or_next-EndsIn path (ok found) next here there s s' r h = here r (ap (λ r. r.0) h)
      or_next-EndsIn path (err e) next here there s s' r h = there _ s s' r h

      guarded-EndsIn :
          (root : WindowsPath) (guard : Result (List D))
          (next : String → Io S (WindowsPath × List D))
          → ((r : WindowsPath × List D) → IsBound root r → Bound r)
          → ((held : List D)
              → guard ≡ ok held
              → All (IsHeldAt W held) (ancestors [] root.components) × All (IsVetted W) held)
          → ((said : String) → EndsIn (next said) (λ r _. Bound r))
          → EndsIn (guarded W writes aliases joined root guard next) (λ r _. Bound r)
      unfolding guarded
      guarded-EndsIn root (err e) next bound held there s s' r h = there _ s s' r h
      guarded-EndsIn root (ok guard) next bound held there s s' r h =
          let (above, vetted) = held guard refl in
          let (found, s₁) = bind_root W writes aliases (joined root) guard s in
          or_next-EndsIn (joined root) found next
            (λ r e. bound r (bind_root-EndsIn root guard above vetted s s₁ r (ap (λ x. (x, s₁)) e)))
            there s₁ s' r h

      try_root-EndsIn :
          (root : WindowsPath) (next : String → Io S (WindowsPath × List D))
          → ((r : WindowsPath × List D) → IsBound root r → Bound r)
          → ((said : String) → EndsIn (next said) (λ r _. Bound r))
          → EndsIn (try_root W writes aliases joined root next) (λ r _. Bound r)
      unfolding try_root
      try_root-EndsIn root next bound there s s' r h =
          let (guard, s₁) = guard_trusted_directory_ancestry W aliases false root s in
          guarded-EndsIn root guard next bound
            (λ held e.
              let run = ap (λ x. (x, s₁)) e in
              (
                guard_trusted_directory_ancestry-IsHeldAt W aliases false root s s₁ held run,
                guard_trusted_directory_ancestry-IsVetted W aliases false root s s₁ held run,
              ))
            there s₁ s' r h

    roots_from-EndsIn :
        (rejected : List String) (candidates : List WindowsPath)
        → EndsIn
            (roots_from W writes aliases joined rejected candidates)
            (λ r _. Any (λ candidate. IsBound candidate r) candidates)
    unfolding roots_from
    roots_from-EndsIn rejected [] s s' r h = absurd cc
    roots_from-EndsIn rejected (root ∷ candidates) s s' r h =
        let later : (said : List String)
            → EndsIn (roots_from W writes aliases joined said candidates)
                (λ r _. Any (λ candidate. IsBound candidate r) (root ∷ candidates)) =
          λ said. λ s s' r h. inr (roots_from-EndsIn said candidates s s' r h) in
        if-EndsIn (is_candidate W writes aliases root)
          (try_root W writes aliases joined root
            (λ said. roots_from W writes aliases joined (rejected ++ said ∷ []) candidates))
          (roots_from W writes aliases joined rejected candidates)
          (λ r _. Any (λ candidate. IsBound candidate r) (root ∷ candidates))
          (try_root-EndsIn (λ r. Any (λ candidate. IsBound candidate r) (root ∷ candidates)) root _
            (λ r bound. inl bound) (λ said. later (rejected ++ said ∷ [])))
          (later rejected) s s' r h

    capture_file_stage-ok :
        {B : Type 0} (r : Result B) (operation : String) (b : B)
        → capture_file_stage W.os_errors r operation ≡ ok b
        → r ≡ ok b
    unfolding capture_file_stage
    capture_file_stage-ok (ok b') operation b h = h
    capture_file_stage-ok (err e) operation b h = absurd cc

    -- When a capture directory is made on Windows, the handles that are held are those of
    -- directories that are all vetted and among which there is one, opened by its path, for each
    -- directory above and at one of the candidates, then that of the root directory of this
    -- candidate, which was found private to the process's user, and last that of the capture
    -- directory, which was too.
    pub capture_directory-IsBound :
        (candidates : List WindowsPath) (temporary_in : WindowsPath → Io S WindowsPath) (s s' : S)
        (temporary : WindowsPath) (guard : List D)
        → capture_directory W writes aliases joined candidates temporary_in s
          ≡ (ok (temporary, guard), s')
        → (root : WindowsPath × List D) × (child : D) × (guard ≡ root.1 ++ child ∷ [])
          × Any (λ candidate. IsBound candidate root) candidates
          × IsPrivateDirectory W writes temporary.components child
    unfolding capture_directory capture_root_from
    capture_directory-IsBound candidates temporary_in s s' temporary guard h =
        let hardened : WindowsPath → Io S D = λ t.
          staged W writes aliases joined (harden_new_private_directory W writes t.components)
            "harden capture directory" in
        let made : WindowsPath × List D → Io S WindowsPath = λ bound.
          staged W writes aliases joined (temporary_in bound.0) "create capture directory" in
        let (bound, s₁, found, h₁) =
          bind-ok (capture_root_from W writes aliases joined candidates)
            (λ bound.
              made bound >>= λ t. hardened t >>= λ child. lift (ok (t, bound.1 ++ child ∷ [])))
            s s' (temporary, guard) h in
        let (t, s₂, created, h₂) =
          bind-ok (made bound) (λ t. hardened t >>= λ child. lift (ok (t, bound.1 ++ child ∷ [])))
            s₁ s' (temporary, guard) h₁ in
        let (child, s₃, checked, h₃) =
          bind-ok (hardened t) (λ child. lift (ok (t, bound.1 ++ child ∷ []))) s₂ s'
            (temporary, guard) h₂ in
        let hardening = harden_new_private_directory W writes t.components s₂ in
        let kept =
          capture_file_stage-ok hardening.0 "harden capture directory" child
            (ap (λ r. r.0) checked) in
        let same = result_inj (ap (λ r. r.0) h₃) in
        (
          bound,
          child,
          sym (ap (λ r. r.1) same),
          roots_from-EndsIn [] candidates s s₁ bound found,
          subst (λ r. IsPrivateDirectory W writes r.0.components child) same
              (harden_new-IsPrivateDirectory W writes t.components s₂ hardening.1 child
                (ap (λ x. (x, hardening.1)) kept)),
        )
