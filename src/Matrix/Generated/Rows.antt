-- ===== src/Matrix/Generated/Rows.antt =====
-- Which rows the matrix of a job has: `matrices` of tools/fs2-dev/src/matrix.rs.
use text.Mathlib.Text
use text.Mathlib.TextEquality.{eq_iff}
use fs2_turbo.Base.{
  String, Bool, true, false, ◌||◌, if◌then◌else◌, List, [], ◌∷◌, ◌++◌, map, append_assoc, Option,
  none, some, ◌≡◌, refl, ap, sym, ◌∙◌, arith,
}
use fs2_turbo.Coverage.Keyed.{KeyLaws, get, get_or_init, get-entry}
use fs2_turbo.Matrix.{CiSpec, TargetSpec, SupportRegistry, MatrixEntry}
use fs2_turbo.Matrix.Generated.{text_order, row, add_target, add_targets, coverage_rows, matrices}

text_laws : KeyLaws text_order
text_laws = record { same_iff = eq_iff }

-- The rows of a target in the matrix of a job, and whether that is its job.
abbrev rows : String → String → Option CiSpec → List MatrixEntry
rows job target none = []
rows job target (some ci) = if Text.◌==◌ job ci.job then map (row target ci) ci.toolchains else []

abbrev is_job : String → Option CiSpec → Bool
is_job job none = false
is_job job (some ci) = Text.◌==◌ job ci.job

-- The rows of all targets, in their order.
abbrev pub rows_of : String → List TargetSpec → List MatrixEntry
rows_of job [] = []
rows_of job (spec ∷ targets) = rows job spec.target spec.ci ++ rows_of job targets

abbrev pub has_job : String → List TargetSpec → Bool
has_job job [] = false
has_job job (spec ∷ targets) = is_job job spec.ci || has_job job targets

abbrev Generated : Type 0
Generated = List (String × List MatrixEntry)

abbrev value : Option (List MatrixEntry) → List MatrixEntry
value (some l) = l
value none = []

append_nil : (l : List MatrixEntry) → (l ++ []) ≡ l
append_nil [] = refl
append_nil (x ∷ l) = ap (λ l. x ∷ l) (append_nil l)

no_rows :
    (job target : String) (found : Option CiSpec)
    → is_job job found ≡ false
    → rows job target found ≡ []
no_rows job target none h = refl
no_rows job target (some ci) h = rw h refl

no_rows_of :
    (job : String) (targets : List TargetSpec)
    → has_job job targets ≡ false
    → rows_of job targets ≡ []
no_rows_of job [] h = refl
no_rows_of job (spec ∷ targets) h =
    let here : is_job job spec.ci ≡ false = ground arith in
    let later : has_job job targets ≡ false = ground arith in
    rw (no_rows job spec.target spec.ci here, no_rows_of job targets later) refl

-- Rows that are added to rows that have been added.
combined :
    (g : Option (List MatrixEntry)) (a b : Bool) (r rs : List MatrixEntry)
    → (a ≡ false → r ≡ [])
    → (b ≡ false → rs ≡ [])
    → (if b
        then some (value (if a then some (value g ++ r) else g) ++ rs)
        else if a
        then some (value g ++ r)
        else g)
      ≡ (if a || b then some (value g ++ (r ++ rs)) else g)
combined g true true r rs p q = ap some (append_assoc (value g) r rs)
combined g true false r rs p q = ap (λ l. some (value g ++ l)) (sym (rw (q refl) (append_nil r)))
combined g false true r rs p q = rw (p refl) refl
combined g false false r rs p q = refl

init-value : (g : Option (List MatrixEntry)) → (elim g [ none ↦ [] | some v ↦ v ]) ≡ value g
init-value none = refl
init-value (some v) = refl

-- The key that is added to is the one that is looked up.
added :
    (job k : String) (m : Generated) (r : List MatrixEntry) (b : Bool)
    → Text.◌==◌ job k ≡ b
    → (if b then some (get_or_init text_order k [] m ++ r) else get text_order job m) ≡ (
        if b
        then some (value (get text_order job m) ++ (if b then r else []))
        else get text_order job m)
added job k m r true h =
    rw ((eq_iff job k).0 h) (ap (λ l. some (l ++ r)) (init-value (get text_order k m)))
added job k m r false h = refl

get-add_target :
    (job : String) (spec : TargetSpec) (found : Option CiSpec)
    → spec.ci ≡ found
    → (m : Generated)
    → get text_order job (add_target spec m) ≡ (
        if is_job job found
        then some (value (get text_order job m) ++ rows job spec.target found)
        else get text_order job m)
unfolding add_target
get-add_target job spec none h m = rw h refl
get-add_target job spec (some ci) h m = rw h (
    get-entry text_order text_laws job ci.job []
      (λ include. include ++ map (row spec.target ci) ci.toolchains) m
    ∙ added job ci.job m _ (Text.◌==◌ job ci.job) refl)

get-add_targets :
    (job : String) (targets : List TargetSpec) (m : Generated)
    → get text_order job (add_targets targets m) ≡ (
        if has_job job targets
        then some (value (get text_order job m) ++ rows_of job targets)
        else get text_order job m)
unfolding add_targets
get-add_targets job [] m = refl
get-add_targets job (spec ∷ targets) m =
    get-add_targets job targets (add_target spec m)
    ∙ rw (get-add_target job spec spec.ci refl m) (
        combined (get text_order job m) (is_job job spec.ci) (has_job job targets) _ _
          (no_rows job spec.target spec.ci) (no_rows_of job targets))

-- The generated matrix of a job has the rows of the targets with that job, in their order and one
-- for each of their toolchains, and is there when a target has the job; that of `coverage` has the
-- coverage rows in any case.
pub matrices-get :
    (registry : SupportRegistry) (job : String)
    → get text_order job (matrices registry) ≡ (
        if Text.◌==◌ job "coverage"
        then some (coverage_rows registry.coverage_toolchain registry.targets)
        else if has_job job registry.targets
        then some (rows_of job registry.targets)
        else none)
unfolding matrices get
matrices-get registry job =
    get-entry text_order text_laws job "coverage" []
      (λ _. coverage_rows registry.coverage_toolchain registry.targets)
      (add_targets registry.targets [])
    ∙ rw (get-add_targets job registry.targets []) refl
