-- ===== src/Windows/Stats/Space/Roots.antt =====
-- The cheap look at a path and the exact copy of a drive root always decide alike.
use mathlib.Core.Option
use fs2_turbo.Base.{ℕ, List, [], ◌∷◌, ◌++◌, ◌≡◌, refl, false, none, arith}
use fs2_turbo.Base.Buffer.{contains_null}
use fs2_turbo.Stats.Snapshot.{SpaceKind}
use fs2_turbo.Windows.Path.{copy_exact_drive_root, valid_drive_root_components}
use fs2_turbo.Windows.Stats.Space.{
  SpaceSys, zero_root, appears_to_be_drive_root, exact_root_space, exact_root_space_from_path,
}

-- A path of four units and more is no drive root with its terminator, for either test.
appears_longer :
    (a b c d : ℕ) (more : List ℕ)
    → contains_null (a ∷ b ∷ c ∷ d ∷ more) ≡ false
    → appears_to_be_drive_root (a ∷ b ∷ c ∷ d ∷ (more ++ 0 ∷ [])) ≡ false
unfolding appears_to_be_drive_root valid_drive_root_components contains_null
appears_longer a b c d more h = ground arith

copy_longer :
    (a b c d : ℕ) (more root : List ℕ)
    → copy_exact_drive_root (a ∷ b ∷ c ∷ d ∷ (more ++ 0 ∷ [])) root ≡ none
unfolding copy_exact_drive_root
copy_longer a b c d [] root = refl
copy_longer a b c d (e ∷ more) root = refl

module _ {S P H : Type 0} (sys : SpaceSys S P H) where
  -- On a null-terminated path with no null inside, the guard on the path's first four units never
  -- changes the outcome: the exact root is asked for exactly when the path is copied as an exact
  -- drive root.
  pub exact_root_space_from_path_lem :
      (units : List ℕ) (kind : SpaceKind)
      → contains_null units ≡ false
      → exact_root_space_from_path sys (units ++ 0 ∷ []) kind
        ≡ Option.map
            (exact_root_space sys (units ++ 0 ∷ []) kind)
            (copy_exact_drive_root (units ++ 0 ∷ []) zero_root)
  unfolding exact_root_space_from_path appears_to_be_drive_root copy_exact_drive_root contains_null
  exact_root_space_from_path_lem [] kind h = refl
  exact_root_space_from_path_lem (a ∷ []) kind h = refl
  exact_root_space_from_path_lem (a ∷ b ∷ []) kind h = refl
  exact_root_space_from_path_lem (a ∷ b ∷ c ∷ []) kind h = ground arith
  exact_root_space_from_path_lem (a ∷ b ∷ c ∷ d ∷ more) kind h =
      rw (copy_longer a b c d more zero_root, appears_longer a b c d more h)
