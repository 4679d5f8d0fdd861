-- ===== src/Process/Execute/Lifecycle/Exact.antt =====
-- An execution is the only life that its child can have: `execute_with` of tools/fs2-dev/src/process.rs.
use fs2_turbo.Base.{ℕ, ◌↔◌, ◌≡◌, refl, ap, ◌∙◌, Result, ok, err}
use mathlib.Core.Path.{subst}
use fs2_turbo.Process.{OsErrors, Execution, ChildObservation}
use fs2_turbo.Process.Execute.{
  ProcessBackend, observed, attached, spawned, configured, execute_with, finished,
}
use fs2_turbo.Process.Execute.Lifecycle
use fs2_turbo.Process.Execute.Lifecycle.{
  Phase, idle, contained, running, exited, condemned, over, Step, Steps, stay, ◌then◌,
  configure_fails, configures, spawn_fails, spawns, attach_fails, attaches, exits, runs_on,
  observe_fails, completes, cleans_up, conclusion,
}

module _ {S : Type 0} (E : OsErrors) (B : ProcessBackend S) (timeout : ℕ) where
  abbrev Life : Phase E B timeout → S → Execution × S → Type 0
  Life p s (x, s') = Steps E B timeout (p, s) (over x, s')

  observed-Life :
      (c : B.Containment) (h : B.Child) (o : Result ChildObservation) (s s' : S)
      → B.observe h timeout s ≡ (o, s')
      → Life (Lifecycle.attached c h) s (observed E B timeout c h o s')
  unfolding observed conclusion
  observed-Life c h (ok (ChildObservation.child_exited status)) s s' e =
      exits e then completes refl then stay
  observed-Life c h (ok ChildObservation.still_running) s s' e =
      runs_on e then cleans_up refl then stay
  observed-Life c h (err error) s s' e = observe_fails e then cleans_up refl then stay

  attached-Life :
      (c c' : B.Containment) (h : B.Child) (a : Result (Unit {0})) (s s' : S)
      → B.attach c h s ≡ ((a, c'), s')
      → Life (running c h) s (attached E B timeout c' h a s')
  unfolding attached conclusion
  attached-Life c c' h (ok _) s s' e =
      attaches e
      then observed-Life c' h (B.observe h timeout s').0 s' (B.observe h timeout s').1 refl
  attached-Life c c' h (err error) s s' e = attach_fails e then cleans_up refl then stay

  spawned-Life :
      (c : B.Containment) (child : Result B.Child) (s s' : S)
      → B.spawn s ≡ (child, s')
      → Life (contained c) s (spawned E B timeout c child s')
  unfolding spawned
  spawned-Life c (ok h) s s' e =
      let ((a, c'), s₁) = B.attach c h s' in spawns e then attached-Life c c' h a s' s₁ refl
  spawned-Life c (err error) s s' e = spawn_fails e then stay

  configured-Life :
      (c : Result B.Containment) (s s' : S)
      → B.configure s ≡ (c, s')
      → Life idle s (configured E B timeout c s')
  unfolding configured
  configured-Life (ok c) s s' e =
      configures e then spawned-Life c (B.spawn s').0 s' (B.spawn s').1 refl
  configured-Life (err error) s s' e = configure_fails e then stay

  execute_with-Life : (s : S) → Life idle s (execute_with E B timeout s)
  unfolding execute_with
  execute_with-Life s = configured-Life (B.configure s).0 s (B.configure s).1 refl

  -- What an execution returns from a phase on.
  rest : Phase E B timeout → S → Execution × S
  rest idle s = execute_with E B timeout s
  rest (contained c) s = configured E B timeout (ok c) s
  rest (running c h) s = spawned E B timeout c (ok h) s
  rest (Lifecycle.attached c h) s = attached E B timeout c h (ok tt) s
  rest (exited c h status) s =
      observed E B timeout c h (ok (ChildObservation.child_exited status)) s
  rest (condemned c h why) s =
      let (report, s') = B.cleanup c h s in (conclusion E timeout why report, s')
  rest (over x) s = (x, s)

  rest-Step : {p q : Phase E B timeout × S} → Step E B timeout p q → rest p.0 p.1 ≡ rest q.0 q.1
  unfolding rest execute_with configured spawned attached observed conclusion
  rest-Step (configure_fails e) = ap (λ r. configured E B timeout r.0 r.1) e
  rest-Step (configures e) = ap (λ r. configured E B timeout r.0 r.1) e
  rest-Step (spawn_fails {c = c} e) = ap (λ r. spawned E B timeout c r.0 r.1) e
  rest-Step (spawns {c = c} e) = ap (λ r. spawned E B timeout c r.0 r.1) e
  rest-Step (attach_fails {h = h} e) = ap (λ r. attached E B timeout r.0.1 h r.0.0 r.1) e
  rest-Step (attaches {h = h} e) = ap (λ r. attached E B timeout r.0.1 h r.0.0 r.1) e
  rest-Step (exits {c = c} {h = h} e) = ap (λ r. observed E B timeout c h r.0 r.1) e
  rest-Step (runs_on {c = c} {h = h} e) = ap (λ r. observed E B timeout c h r.0 r.1) e
  rest-Step (observe_fails {c = c} {h = h} e) = ap (λ r. observed E B timeout c h r.0 r.1) e
  rest-Step (completes e) = ap (λ r. (finished r.0, r.1)) e
  rest-Step (cleans_up {why = why} e) = ap (λ r. (conclusion E timeout why r.0, r.1)) e

  rest-Steps : {p q : Phase E B timeout × S} → Steps E B timeout p q → rest p.0 p.1 ≡ rest q.0 q.1
  rest-Steps stay = refl
  rest-Steps (step then steps) = rest-Step step ∙ rest-Steps steps

  -- The steps of a child's life, in which a child is attached, observed and then completed or
  -- cleaned up, lead from a state to an execution exactly when that execution, with its state, is
  -- what `execute_with` gives.
  pub execute_with_iff :
      (s : S) (r : Execution × S)
      → Steps E B timeout (idle, s) (over r.0, r.1) ↔ (execute_with E B timeout s ≡ r)
  unfolding rest
  execute_with_iff s r =
      (λ steps. rest-Steps steps, λ e. subst (λ t. Life idle s t) e (execute_with-Life s))
