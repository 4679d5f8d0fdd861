-- ===== src/Process/Execute/Released.antt =====
-- That no child is left behind: `execute_with` of tools/fs2-dev/src/process.rs.
use fs2_turbo.Base.{ℕ, List, [], ◌∷◌, ◌≡◌, refl, ap, sym, Result, ok, err}
use mathlib.Core.Path.{subst}
use fs2_turbo.Process.{OsErrors, Execution, ChildObservation}
use fs2_turbo.Process.Execute.{
  ProcessBackend, observed, attached, spawned, configured, execute_with,
}

-- What a log of a backend has, the newest first.
pub data Event (H : Type 0) : Type 0 where
  started : H → Event H
  released : H → Event H

abbrev note_started :
    {S H : Type 0} → Result H × S → List (Event H) → Result H × (S × List (Event H))
note_started (ok child, s) log = (ok child, (s, started child ∷ log))
note_started (err error, s) log = (err error, (s, log))

-- The backend with a log: of a child that `spawn` gives, and of one that is completed or cleaned up.
abbrev pub logged : {S : Type 0} (B : ProcessBackend S) → ProcessBackend (S × List (Event B.Child))
logged B = record {
  Containment = B.Containment;
  Child = B.Child;
  configure = λ (s, log). let (result, s') = B.configure s in (result, (s', log));
  spawn = λ (s, log). note_started (B.spawn s) log;
  attach = λ containment child (s, log).
      let (result, s') = B.attach containment child s in (result, (s', log));
  observe =
      λ child timeout (s, log). let (result, s') = B.observe child timeout s in (result, (s', log));
  complete = λ containment child status (s, log).
      let (report, s') = B.complete containment child status s in
      (report, (s', released child ∷ log));
  cleanup = λ containment child (s, log).
      let (report, s') = B.cleanup containment child s in (report, (s', released child ∷ log));
}

-- No child, or one that has been started and is released at the end.
pub data IsReleased {H : Type 0} : List (Event H) → Type 0 where
  no_child : IsReleased []
  one_child : (child : H) → IsReleased (released child ∷ started child ∷ [])

module _ {S : Type 0} (E : OsErrors) (B : ProcessBackend S) (timeout : ℕ) where
  abbrev with_log : Execution × S → List (Event B.Child) → Execution × (S × List (Event B.Child))
  with_log (x, s) log = (x, (s, log))

  observed-released :
      (c : B.Containment) (h : B.Child) (o : Result ChildObservation) (s : S)
      (log : List (Event B.Child))
      → observed E (logged B) timeout c h o (s, log)
        ≡ with_log (observed E B timeout c h o s) (released h ∷ log)
  unfolding observed
  observed-released c h (ok (ChildObservation.child_exited status)) s log = refl
  observed-released c h (ok ChildObservation.still_running) s log = refl
  observed-released c h (err error) s log = refl

  attached-released :
      (c : B.Containment) (h : B.Child) (a : Result (Unit {0})) (s : S) (log : List (Event B.Child))
      → attached E (logged B) timeout c h a (s, log)
        ≡ with_log (attached E B timeout c h a s) (released h ∷ log)
  unfolding attached
  attached-released c h (ok _) s log =
      let (o, s') = B.observe h timeout s in observed-released c h o s' log
  attached-released c h (err error) s log = refl

  -- The same end as without the log, which has been kept in order.
  abbrev Kept : Execution × (S × List (Event B.Child)) → Execution × S → Type 0
  Kept r q = (r.0 ≡ q.0) × (r.1.0 ≡ q.1) × IsReleased r.1.1

  attached-Kept :
      (c : B.Containment) (h : B.Child) (a : Result (Unit {0})) (s : S)
      → Kept
          (attached E (logged B) timeout c h a (s, started h ∷ []))
          (attached E B timeout c h a s)
  attached-Kept c h a s =
      let same = attached-released c h a s (started h ∷ []) in
      (
        ap (λ r. r.0) same,
        ap (λ r. r.1.0) same,
        subst IsReleased (sym (ap (λ r. r.1.1) same)) (one_child h),
      )

  spawned-Kept :
      (c : B.Containment) (child : Result B.Child) (s : S)
      → let (child', (s', log)) = note_started (child, s) [] in
        Kept (spawned E (logged B) timeout c child' (s', log)) (spawned E B timeout c child s)
  unfolding spawned
  spawned-Kept c (ok h) s = let ((a, c'), s') = B.attach c h s in attached-Kept c' h a s'
  spawned-Kept c (err error) s = (refl, refl, no_child)

  configured-Kept :
      (c : Result B.Containment) (s : S)
      → Kept (configured E (logged B) timeout c (s, [])) (configured E B timeout c s)
  unfolding configured
  configured-Kept (ok c) s = spawned-Kept c (B.spawn s).0 (B.spawn s).1
  configured-Kept (err error) s = (refl, refl, no_child)

  -- With a log of the children that the backend starts and of those that are completed or cleaned
  -- up, `execute_with` gives the same execution and the same state, and the log is empty at the
  -- end, or has one child that was started and then released once.
  pub execute_with-IsReleased :
      (s : S)
      → let r = execute_with E (logged B) timeout (s, []) in
        (r.0 ≡ (execute_with E B timeout s).0)
        × (r.1.0 ≡ (execute_with E B timeout s).1)
        × IsReleased r.1.1
  unfolding execute_with
  execute_with-IsReleased s = configured-Kept (B.configure s).0 (B.configure s).1
