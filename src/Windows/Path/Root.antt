-- ===== src/Windows/Path/Root.antt =====
-- Which paths are drive roots, and what they are copied to.
use fs2_turbo.Base.{ℕ, ◌≤◌, ◌≡◌, ◌⊎◌, ◌↔◌, true, List, [], ◌∷◌, some, drop, arith}
use fs2_turbo.Windows.Path.{valid_drive_root_components, copy_exact_drive_root}

-- A letter, a colon and a slash of either kind.
abbrev pub IsDriveRoot : ℕ → ℕ → ℕ → Type 0
IsDriveRoot drive colon separator =
    (((b'A' ≤ drive) × (drive ≤ b'Z')) ⊎ ((b'a' ≤ drive) × (drive ≤ b'z')))
    × (colon ≡ b':')
    × ((separator ≡ b'\\') ⊎ (separator ≡ b'/'))

pub valid_drive_root_components_iff :
    (d c s t : ℕ) → (valid_drive_root_components d c s t ≡ true) ↔ (IsDriveRoot d c s × (t ≡ 0))
unfolding valid_drive_root_components
valid_drive_root_components_iff d c s t = (λ h. ground arith, λ h. ground arith)

-- `copied` is the root path for `path`, with a backslash whichever slash the path has.
abbrev pub IsRootCopy : List ℕ → List ℕ → List ℕ → Type 0
IsRootCopy path root copied =
    (d : ℕ) × (s : ℕ) × (path ≡ d ∷ b':' ∷ s ∷ 0 ∷ [])
    × IsDriveRoot d b':' s
    × (copied ≡ d ∷ b':' ∷ b'\\' ∷ 0 ∷ drop 4 root)

copy_exact_drive_root-IsRootCopy :
    (path root : List ℕ) {copied : List ℕ}
    → copy_exact_drive_root path root ≡ some copied
    → IsRootCopy path root copied
unfolding copy_exact_drive_root
copy_exact_drive_root-IsRootCopy [] root h = cc
copy_exact_drive_root-IsRootCopy (d ∷ []) root h = cc
copy_exact_drive_root-IsRootCopy (d ∷ c ∷ []) root h = cc
copy_exact_drive_root-IsRootCopy (d ∷ c ∷ s ∷ []) root h = cc
copy_exact_drive_root-IsRootCopy (d ∷ c ∷ s ∷ t ∷ []) root h =
    (d, s, ground arith, ground arith, ground arith)
copy_exact_drive_root-IsRootCopy (d ∷ c ∷ s ∷ t ∷ u ∷ more) root h = cc

-- A path is copied as a drive root exactly when it is an ASCII letter, a colon, a slash of either
-- kind and a null, and the copy has a backslash and leaves the rest of the root buffer alone.
pub copy_exact_drive_root_iff :
    (path root copied : List ℕ)
    → (copy_exact_drive_root path root ≡ some copied) ↔ IsRootCopy path root copied
unfolding copy_exact_drive_root
copy_exact_drive_root_iff path root copied = (
  λ h. copy_exact_drive_root-IsRootCopy path root h,
  λ h. let (d, s, e, valid, f) = h in rw (e, f) (ground arith),
)
