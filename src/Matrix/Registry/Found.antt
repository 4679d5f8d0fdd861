-- ===== src/Matrix/Registry/Found.antt =====
-- What the tests and the loop of `validate_registry` of tools/fs2-dev/src/matrix.rs have found.
use fs2_turbo.Base.{
  Bool, true, false, not, ◌||◌, List, [], ◌∷◌, ◌≡◌, ◌≢◌, ◌↔◌, refl, Error, Result, ok, err, ◌>>=◌,
  ◌>>◌, fail_if, arith, All, Any,
}
use fs2_turbo.Matrix.{EvidenceLevel, TargetSpec, is_runtime, is_compile, is_not_covered}
use fs2_turbo.Matrix.Registry.{has_level, has_all_levels}

-- Three tests before a result.
pub three {ℓ} :
    {A : Type ℓ} (a b c : Bool) (e₁ e₂ e₃ : Error) (m : Result A) (x : A)
    → ((fail_if a e₁ >> (fail_if b e₂ >> (fail_if c e₃ >> m))) ≡ ok x)
      ↔ ((a ≡ false) × (b ≡ false) × (c ≡ false) × (m ≡ ok x))
three false false false e₁ e₂ e₃ m x = (λ h. (refl, refl, refl, h), λ (p, q, r, h). h)
three true b c e₁ e₂ e₃ m x = (λ h. absurd cc, λ h. absurd cc)
three false true c e₁ e₂ e₃ m x = (λ h. absurd cc, λ h. absurd cc)
three false false true e₁ e₂ e₃ m x = (λ h. absurd cc, λ h. absurd cc)

pub refused : (b : Bool) → (b ≢ true) → b ≡ false
refused false h = refl
refused true h = absurd (h refl)

pub All-both {ℓ} :
    {A : Type ℓ} (P Q : A → Type 0) (xs : List A) → All (λ x. P x × Q x) xs ↔ (All P xs × All Q xs)
All-both P Q [] = (λ _. (tt, tt), λ _. tt)
All-both P Q (x ∷ xs) =
    let rest = All-both P Q xs in
    (
      λ ((p, q), all). ((p, (rest.0 all).0), (q, (rest.0 all).1)),
      λ ((p, ps), (q, qs)). ((p, q), rest.1 (ps, qs)),
    )

abbrev pub any : (TargetSpec → Bool) → List TargetSpec → Bool
any test [] = false
any test (entry ∷ entries) = test entry || any test entries

pub any_iff :
    (test : TargetSpec → Bool) (P : TargetSpec → Type 0)
    → ((e : TargetSpec) → (test e ≡ true) ↔ P e)
    → (entries : List TargetSpec) → (any test entries ≡ true) ↔ Any P entries
any_iff test P same [] = (λ h. absurd cc, λ h. absurd h)
any_iff test P same (entry ∷ entries) = ground (arith, same entry, any_iff test P same entries)

pub or_false : (b : Bool) → (b || false) ≡ b
or_false true = refl
or_false false = refl

pub regroup :
    (a b c d e f : Bool)
    → ◌≡◌ {A = Bool × Bool} ((a || b) || c, (d || e) || f) (a || (b || c), d || (e || f))
regroup true b c true e f = refl
regroup true b c false e f = refl
regroup false b c true e f = refl
regroup false b c false e f = refl

-- What is left of the check when the loop is over.
pub flags_iff :
    (m : Result (Bool × Bool)) (e e' : Error)
    → ((m >>= λ found. fail_if (not found.0) e >> fail_if (not found.1) e') ≡ ok tt)
      ↔ (m ≡ ok (true, true))
flags_iff (ok (true, true)) e e' = (λ _. refl, λ _. refl)
flags_iff (ok (true, false)) e e' = (λ h. absurd cc, λ h. absurd cc)
flags_iff (ok (false, c)) e e' = (λ h. absurd cc, λ h. absurd cc)
flags_iff (err x) e e' = (λ h. absurd cc, λ h. absurd cc)

pub whole_iff :
    (e₁ e₂ e₃ e₄ e₅ e₆ : Error) (a b c d : Bool) (m : Result (Bool × Bool))
    → ((fail_if a e₁
          >> (fail_if b e₂
              >> (fail_if c e₃
                  >> (fail_if d e₄
                      >> (m >>= λ found. fail_if (not found.0) e₅ >> fail_if (not found.1) e₆)))))
        ≡ ok tt)
      ↔ ((a ≡ false) × (b ≡ false) × (c ≡ false) × (d ≡ false) × (m ≡ ok (true, true)))
whole_iff e₁ e₂ e₃ e₄ e₅ e₆ a b c false m =
    let tests =
      three a b c e₁ e₂ e₃ (m >>= λ found. fail_if (not found.0) e₅ >> fail_if (not found.1) e₆)
        tt in
    let flags = flags_iff m e₅ e₆ in
    (
      λ h. let (p, q, r, k) = tests.0 h in (p, q, r, refl, flags.0 k),
      λ (p, q, r, u, k). tests.1 (p, q, r, flags.1 k),
    )
whole_iff e₁ e₂ e₃ e₄ e₅ e₆ a b c true m = (
  λ h. let (p, q, r, k) = (three a b c e₁ e₂ e₃ (err e₄) tt).0 h in absurd cc,
  λ (p, q, r, u, k). absurd cc,
)

pub not-false : (b : Bool) → not b ≡ false → b ≡ true
not-false true h = refl
not-false false h = absurd cc

pub runtime_iff : (l : EvidenceLevel) → (is_runtime l ≡ true) ↔ (l ≡ EvidenceLevel.runtime)
runtime_iff EvidenceLevel.runtime = (λ _. refl, λ _. refl)
runtime_iff EvidenceLevel.compile = (λ h. absurd cc, λ h. absurd cc)
runtime_iff EvidenceLevel.not_covered = (λ h. absurd cc, λ h. absurd cc)

compile_iff : (l : EvidenceLevel) → (is_compile l ≡ true) ↔ (l ≡ EvidenceLevel.compile)
compile_iff EvidenceLevel.runtime = (λ h. absurd cc, λ h. absurd cc)
compile_iff EvidenceLevel.compile = (λ _. refl, λ _. refl)
compile_iff EvidenceLevel.not_covered = (λ h. absurd cc, λ h. absurd cc)

not_covered_iff : (l : EvidenceLevel) → (is_not_covered l ≡ true) ↔ (l ≡ EvidenceLevel.not_covered)
not_covered_iff EvidenceLevel.runtime = (λ h. absurd cc, λ h. absurd cc)
not_covered_iff EvidenceLevel.compile = (λ h. absurd cc, λ h. absurd cc)
not_covered_iff EvidenceLevel.not_covered = (λ _. refl, λ _. refl)

level_iff :
    (test : EvidenceLevel → Bool) (level : EvidenceLevel)
    → ((l : EvidenceLevel) → (test l ≡ true) ↔ (l ≡ level))
    → (levels : List EvidenceLevel) → (has_level test levels ≡ true) ↔ Any (λ l. l ≡ level) levels
level_iff test level same [] = (λ h. absurd cc, λ h. absurd h)
level_iff test level same (l ∷ levels) = ground (arith, same l, level_iff test level same levels)

-- All three levels are there.
pub all_levels_iff :
    (levels : List EvidenceLevel)
    → (has_all_levels levels ≡ true) ↔ ((level : EvidenceLevel) → Any (λ l. l ≡ level) levels)
all_levels_iff levels =
    let r = level_iff is_runtime EvidenceLevel.runtime runtime_iff levels in
    let c = level_iff is_compile EvidenceLevel.compile compile_iff levels in
    let n = level_iff is_not_covered EvidenceLevel.not_covered not_covered_iff levels in
    let all : (has_all_levels levels ≡ true) ↔ (
        Any (λ l. l ≡ EvidenceLevel.runtime) levels
        × Any (λ l. l ≡ EvidenceLevel.compile) levels
        × Any (λ l. l ≡ EvidenceLevel.not_covered) levels) =
      ground (arith, r, c, n) in
    (
      λ h. λ level. elim level as (λ k. Any (λ l. l ≡ k) levels) [
        | EvidenceLevel.runtime ↦ (all.0 h).0
        | EvidenceLevel.compile ↦ (all.0 h).1
        | EvidenceLevel.not_covered ↦ (all.0 h).2
      ],
      λ f. all.1 (f EvidenceLevel.runtime, f EvidenceLevel.compile, f EvidenceLevel.not_covered),
    )
