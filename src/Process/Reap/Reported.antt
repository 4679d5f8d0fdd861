-- ===== src/Process/Reap/Reported.antt =====
-- What a report of a cleanup without an error means: `reap_terminated_child` and `cleanup_report` of
-- tools/fs2-dev/src/process.rs.
use fs2_turbo.Base.{
  String, List, [], ◌∷◌, ◌++◌, Option, none, some, ◌≡◌, ◌≢◌, refl, Error, Result, ok, err, Io.Io,
}
use fs2_turbo.Process.{OsErrors, ExitStatus}
use fs2_turbo.Process.Reap.{
  push_error, joined, cleanup_report, kill_unless, last_wait, first_wait, reap_terminated_child,
  ok_status, unix_group_errors, completed_unix_group,
}

snoc_nonempty {ℓ} : {A : Type ℓ} (xs : List A) (x : A) → (xs ++ x ∷ []) ≢ []
snoc_nonempty [] x = cc
snoc_nonempty (y ∷ xs) x = cc

pub joined-none : (errors : List String) → joined errors ≡ none → errors ≡ []
unfolding joined
joined-none [] h = refl
joined-none (error ∷ errors) h = absurd cc

pub push_error_empty {ℓ} :
    {A : Type ℓ} (E : OsErrors) (what : String) (r : Result A) (errors : List String)
    → push_error E what r errors ≡ []
    → (errors ≡ []) × (a : A) × (r ≡ ok a)
unfolding push_error
push_error_empty E what (ok a) errors h = (h, a, refl)
push_error_empty E what (err e) errors h = absurd (snoc_nonempty errors _ h)

pub cleanup_report-none :
    (E : OsErrors) (status : Option ExitStatus) (errors : List String) (v : Result (Unit {0}))
    (scope : String)
    → (cleanup_report E status errors v scope).1 ≡ none
    → (errors ≡ []) × (v ≡ ok tt)
unfolding cleanup_report
cleanup_report-none E status errors v scope h =
    let (empty, u, fine) = push_error_empty E _ v errors (joined-none _ h) in (empty, fine)

module _ {S : Type 0} (E : OsErrors) (terminate kill : Io S (Unit {0}))
    (wait : Io S (Option ExitStatus)) where
  kill_unless-empty :
      (t : Result (Unit {0})) (s : S) → (kill_unless E terminate kill wait t s).0 ≡ [] → t ≡ ok tt
  unfolding kill_unless push_error
  kill_unless-empty (ok _) s h = refl
  kill_unless-empty (err e) s h =
      let (nothing, u, fine) = push_error_empty E _ (kill s).0 _ h in absurd cc

  -- A wait that adds no error has reaped the child.
  last_wait-empty :
      (w : Result (Option ExitStatus)) (errors : List String)
      → (last_wait E terminate kill wait w errors).1 ≡ []
      → (errors ≡ [])
        × (status : ExitStatus) × ((last_wait E terminate kill wait w errors).0 ≡ some status)
  unfolding last_wait
  last_wait-empty (ok (some status)) errors h = (h, status, refl)
  last_wait-empty (ok none) errors h = absurd (snoc_nonempty errors _ h)
  last_wait-empty (err e) errors h = absurd (snoc_nonempty errors _ h)

  first_wait-empty :
      (w : Result (Option ExitStatus)) (errors : List String) (s : S)
      → (first_wait E terminate kill wait w errors s).0.1 ≡ []
      → (errors ≡ [])
        × (status : ExitStatus) × ((first_wait E terminate kill wait w errors s).0.0 ≡ some status)
  unfolding first_wait
  first_wait-empty (ok (some status)) errors s h = (h, status, refl)
  first_wait-empty (ok none) errors s h =
      let (empty, status, reaped) = last_wait-empty (wait (kill s).1).0 _ h in
      let (before, u, fine) = push_error_empty E _ (kill s).0 errors empty in
      (before, status, reaped)
  first_wait-empty (err e) errors s h = absurd (snoc_nonempty errors _ h)

  pub reap_terminated_child-empty :
      (s : S)
      → (reap_terminated_child E terminate kill wait s).0.1 ≡ []
      → ((terminate s).0 ≡ ok tt)
        × (status : ExitStatus) × ((reap_terminated_child E terminate kill wait s).0.0
            ≡ some status)
  unfolding reap_terminated_child
  reap_terminated_child-empty s h =
      let (empty, status, reaped) = first_wait-empty _ _ _ h in
      (kill_unless-empty (terminate s).0 (terminate s).1 empty, status, reaped)

pub completed_unix_group-none :
    (E : OsErrors) (r : Result ExitStatus) (t : Option Error) (v : Result (Unit {0}))
    → (completed_unix_group E r t v).1 ≡ none
    → (v ≡ ok tt)
      × (status : ExitStatus) × ((completed_unix_group E r t v).0 ≡ some status)
      × (r ≡ ok status)
unfolding completed_unix_group unix_group_errors cleanup_report push_error
completed_unix_group-none E (ok status) t (ok _) h = (refl, status, refl, refl)
completed_unix_group-none E (err e) t (ok _) h =
    let (some_error, fine) =
      cleanup_report-none E none (unix_group_errors E (err e) t (ok tt)) (ok tt) "process-group"
        h in
    absurd (snoc_nonempty [] _ some_error)
completed_unix_group-none E r t (err e) h =
    let (empty, fine) =
      cleanup_report-none E (ok_status r) (unix_group_errors E r t (err e)) (err e) "process-group"
        h in
    absurd cc
