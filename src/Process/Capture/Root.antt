-- ===== src/Process/Capture/Root.antt =====
-- The directory for captures on Windows: `capture_root_from` and `capture_directory` of
-- tools/fs2-dev/src/process.rs.
pub mod Bound
use fs2_turbo.Base.{
  ℕ, String, Bool, true, false, not, ◌&&◌, ◌||◌, if◌then◌else◌, List, [], ◌∷◌, ◌++◌, Option, none,
  some, Error, Result, ok, err,
}
use fs2_turbo.Base.Io.{Io, lift, ◌>>=◌, ◌>>◌}
use fs2_turbo.Base.Text.{concat, join}
use fs2_turbo.Process.{OsErrors, display}
use fs2_turbo.Process.Capture.{invalid_data, capture_file_stage}
use fs2_turbo.Process.Security.Path
use fs2_turbo.Process.Security.Path.{WindowsPath, Component, is_local_fixed_drive_with_options}
use fs2_turbo.Process.Security.Identity.{IdentityCalls, DescriptorCalls}
use fs2_turbo.Process.Security.Ancestry.{AncestrySystem, guard_trusted_directory_ancestry}
use fs2_turbo.Process.Security.Create.{
  CreateCalls, create_or_open_private_directory, harden_new_private_directory,
}

-- `{path}: {error}`, in the list of what was rejected.
unfoldable pub rejection : OsErrors → String → Error → String
unfolding display
rejection E path error = concat (path ∷ ": " ∷ display E error ∷ [])

module _ {S D A R : Type 0} (W : AncestrySystem S D A R) (writes : CreateCalls S D A R)
    (aliases : ℕ) where
  -- The directory of a root whose ancestors are held.
  unfoldable pub bind_root : WindowsPath → List D → Io S (WindowsPath × List D)
  unfolding create_or_open_private_directory
  bind_root temporary_root guard =
      create_or_open_private_directory W writes temporary_root.components >>= λ parent.
      lift (ok (temporary_root, guard ++ parent ∷ []))

  abbrev pub is_candidate : WindowsPath → Bool
  is_candidate root =
      root.is_absolute
      && is_local_fixed_drive_with_options W.from_code W.to_string_lossy false W.drive_type root

  -- `root.join(".fs2-secure-capture")` is a parameter.
  module _ (joined : WindowsPath → WindowsPath) where
    -- A candidate that is tried, and what is said of it when it is rejected.
    abbrev pub or_next :
        WindowsPath
        → Result (WindowsPath × List D)
        → (String → Io S (WindowsPath × List D))
        → Io S (WindowsPath × List D)
    or_next path (ok found) next s = (ok found, s)
    or_next path (err error) next s = next (rejection W.os_errors path.display error) s

    unfoldable pub guarded :
        WindowsPath
        → Result (List D)
        → (String → Io S (WindowsPath × List D))
        → Io S (WindowsPath × List D)
    unfolding rejection bind_root
    guarded root (err error) next s = next (rejection W.os_errors root.display error) s
    guarded root (ok guard) next s =
        let (found, s') = bind_root (joined root) guard s in or_next (joined root) found next s'

    unfoldable pub try_root :
        WindowsPath → (String → Io S (WindowsPath × List D)) → Io S (WindowsPath × List D)
    unfolding guard_trusted_directory_ancestry guarded
    try_root root next s =
        let (guard, s') = guard_trusted_directory_ancestry W aliases false root s in
        guarded root guard next s'

    unfoldable pub roots_from : List String → List WindowsPath → Io S (WindowsPath × List D)
    unfolding try_root is_local_fixed_drive_with_options join
    roots_from rejected [] = lift (
        err (
          invalid_data (
            concat (
              "unable to bind capture temp ancestry to a trusted per-user or executable directory: "
              ∷ join "; " rejected
              ∷ []))))
    roots_from rejected (root ∷ candidates) =
        if is_candidate root
        then try_root root (λ said. roots_from (rejected ++ said ∷ []) candidates)
        else roots_from rejected candidates

    unfoldable pub capture_root_from : List WindowsPath → Io S (WindowsPath × List D)
    unfolding roots_from
    capture_root_from candidates = roots_from [] candidates

    -- A stage whose error says what was done.
    abbrev pub staged : {B : Type 0} → Io S B → String → Io S B
    staged run operation s =
        let (result, s') = run s in (capture_file_stage W.os_errors result operation, s')

    -- `backend.temporary_in` and the path of what it made are parameters.
    unfoldable pub capture_directory :
        List WindowsPath → (WindowsPath → Io S WindowsPath) → Io S (WindowsPath × List D)
    unfolding capture_root_from capture_file_stage harden_new_private_directory
    capture_directory candidates temporary_in = do
      bound ← capture_root_from candidates
      temporary ← staged (temporary_in bound.0) "create capture directory"
      child ←
          staged (harden_new_private_directory W writes temporary.components)
            "harden capture directory"
      lift (ok (temporary, bound.1 ++ child ∷ []))
