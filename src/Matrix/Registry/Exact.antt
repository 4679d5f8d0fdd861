-- ===== src/Matrix/Registry/Exact.antt =====
-- Exactly which registries are accepted: `validate_registry` of tools/fs2-dev/src/matrix.rs.
use text.Mathlib.Text
use text.Mathlib.TextEquality.{eq_iff}
use fs2_turbo.Base.{
  String, Bool, true, false, not, ◌||◌, ◌==◌, List, [], ◌∷◌, ◌≡◌, ◌≢◌, ◌↔◌, refl, ap, sym, ◌∙◌, ok,
  bind-ok, arith, All, Any,
}
use fs2_turbo.Matrix.{
  EvidenceLevel, TargetSpec, SupportRegistry, is_runtime, primary_coverage_toolchain,
  is_target_triple,
}
use fs2_turbo.Matrix.Registry.{
  member, has_all_levels, is_empty, validate_evidence, validate_target, validate_targets,
  validate_registry,
}
use fs2_turbo.Matrix.Registry.Found.{
  three, refused, All-both, any, any_iff, or_false, regroup, whole_iff, not-false, runtime_iff,
  all_levels_iff,
}
use fs2_turbo.Matrix.Registry.Valid.{
  IsSupported, coverage_of, evidence-IsSupported, IsSupported-evidence,
}

-- No two targets have the same name.
abbrev pub Distinct : List TargetSpec → Type 0
Distinct [] = Unit
Distinct (entry ∷ entries) = All (λ e. e.target ≢ entry.target) entries × Distinct entries

-- A target by itself.
pub record IsApproved (rust_version : String) (entry : TargetSpec) : Type 0 where
  pub triple : is_target_triple entry.target ≡ true
  pub platform : entry.platform ≢ ""
  pub supported : IsSupported rust_version entry

pub record IsValid (rust_version : String) (registry : SupportRegistry) : Type 0 where
  pub version_6 : registry.version ≡ 6
  pub pinned : registry.coverage_toolchain ≡ primary_coverage_toolchain
  pub levels : (level : EvidenceLevel) → Any (λ l. l ≡ level) registry.evidence_levels
  pub approved : All (IsApproved rust_version) registry.targets
  pub distinct : Distinct registry.targets
  pub is_run : Any (λ e. e.evidence ≡ EvidenceLevel.runtime) registry.targets
  pub is_covered : Any (λ e. coverage_of e.ci ≡ true) registry.targets

-- None of the texts is the name.
abbrev IsFresh : List String → TargetSpec → Type 0
IsFresh seen entry = All (λ s. entry.target ≢ s) seen

member_iff : (s : String) (seen : List String) → (member s seen ≡ false) ↔ All (λ t. s ≢ t) seen
unfolding member
member_iff s [] = (λ _. tt, λ _. refl)
member_iff s (t ∷ seen) = ground (arith, eq_iff s t, member_iff s seen)

module _ (v : String) (debug : String → String) where
  target_iff :
      (seen : List String) (entry : TargetSpec) (c : Bool)
      → (validate_target v debug seen entry ≡ ok c)
        ↔ (IsApproved v entry × IsFresh seen entry × (c ≡ coverage_of entry.ci))
  unfolding validate_target
  target_iff seen entry c =
      let tests =
        three (not (is_target_triple entry.target)) (member entry.target seen)
          (Text.◌==◌ entry.platform "") _ _ _ (validate_evidence v entry) c in
      let supported =
        evidence-IsSupported v entry.target entry.platform entry.evidence entry.allocation entry.ci
          c in
      let accepted =
        IsSupported-evidence v entry.target entry.platform entry.evidence entry.allocation
          entry.ci in
      let fresh = member_iff entry.target seen in
      let empty = eq_iff entry.platform "" in
      (
        λ h.
            let (a, b, e, m) = tests.0 h in
            let (s, same) = supported m in
            (
              record {
                triple = ground arith;
                platform = λ p. (let q = empty.1 p in cc);
                supported = s;
              },
              fresh.0 b,
              same,
            ),
        λ (good, new, same). tests.1 (
          ground (arith, good.triple),
          fresh.1 new,
          refused (Text.◌==◌ entry.platform "") (λ p. good.platform (empty.0 p)),
          accepted good.supported ∙ ap ok (sym same),
        ),
      )

  abbrev run : TargetSpec → Bool
  run entry = is_runtime entry.evidence

  abbrev counted : TargetSpec → Bool
  counted entry = coverage_of entry.ci

  targets_iff :
      (seen : List String) (r c : Bool) (entries : List TargetSpec) (found : Bool × Bool)
      → (validate_targets v debug seen r c entries ≡ ok found) ↔ (
          All (IsApproved v) entries
          × All (IsFresh seen) entries
          × Distinct entries
          × (found ≡ (r || any run entries, c || any counted entries)))
  unfolding validate_targets
  targets_iff seen r c [] found = (
    λ h. (
      tt,
      tt,
      tt,
      rw (or_false r, or_false c) (let p : ◌≡◌ {A = Bool × Bool} (r, c) found = cc in sym p),
    ),
    λ (u, v, w, p). ap ok (sym (rw (or_false r, or_false c) at p)),
  )
  targets_iff seen r c (entry ∷ entries) found = (
    λ h.
        let (coverage, valid, later) =
          bind-ok (validate_target v debug seen entry)
            (λ x. validate_targets v debug (entry.target ∷ seen) (r || run entry) (c || x) entries)
            found h in
        let (good, new, same) = (target_iff seen entry coverage).0 valid in
        let (goods, news, distinct, flags) =
          (targets_iff (entry.target ∷ seen) (r || run entry) (c || coverage) entries found).0
            later in
        let (others, fresh) =
          (All-both (λ e. e.target ≢ entry.target) (IsFresh seen) entries).0 news in
        (
          (good, goods),
          (new, fresh),
          (others, distinct),
          flags
              ∙ regroup r (run entry) (any run entries) c coverage (any counted entries)
              ∙ ap (λ k. (r || (run entry || any run entries), c || (k || any counted entries)))
                  same,
        ),
    λ ((good, goods), (new, fresh), (others, distinct), flags).
        let valid = (target_iff seen entry (counted entry)).1 (good, new, refl) in
        let news =
          (All-both (λ e. e.target ≢ entry.target) (IsFresh seen) entries).1 (others, fresh) in
        rw (valid, validate_targets)
          ((targets_iff (entry.target ∷ seen) (r || run entry) (c || counted entry) entries found).1
            (
              goods,
              news,
              distinct,
              flags
                  ∙ sym (
                      regroup r (run entry) (any run entries) c (counted entry)
                        (any counted entries)),
            )),
  )

-- A target is there when one is run.
nonempty :
    (P : TargetSpec → Type 0) (targets : List TargetSpec) → Any P targets → is_empty targets ≡ false
nonempty P [] h = absurd h
nonempty P (t ∷ targets) h = refl

nothing_seen : (targets : List TargetSpec) → All (IsFresh []) targets
nothing_seen [] = tt
nothing_seen (t ∷ targets) = (tt, nothing_seen targets)

-- A registry is accepted exactly when it has version 6, the pinned coverage toolchain and all
-- three levels, its targets have different approved names, a platform, and the toolchains, runner
-- and job that their levels ask for, and one of them is run and one provides coverage.
pub validate_registry_iff :
    (v : String) (debug : String → String) (registry : SupportRegistry)
    → (validate_registry v debug registry ≡ ok tt) ↔ IsValid v registry
unfolding validate_registry
validate_registry_iff v debug registry =
    let chain =
      whole_iff _ _ _ _ _ _ (not (registry.version == 6))
        (not (Text.◌==◌ registry.coverage_toolchain primary_coverage_toolchain))
        (not (has_all_levels registry.evidence_levels)) (is_empty registry.targets)
        (validate_targets v debug [] false false registry.targets) in
    let loop = targets_iff v debug [] false false registry.targets (true, true) in
    let is_run =
      any_iff (run v debug) (λ e. e.evidence ≡ EvidenceLevel.runtime) (λ e. runtime_iff e.evidence)
        registry.targets in
    let is_covered =
      any_iff (counted v debug) (λ e. coverage_of e.ci ≡ true) (λ e. (λ h. h, λ h. h))
        registry.targets in
    let pinned = eq_iff registry.coverage_toolchain primary_coverage_toolchain in
    let levels = all_levels_iff registry.evidence_levels in
    (
      λ h.
          let (a, b, c, d, m) = chain.0 h in
          let (goods, u, distinct, flags) = loop.0 m in
          record {
            version_6 = ground arith;
            pinned = pinned.0 (not-false _ b);
            levels = levels.0 (not-false _ c);
            approved = goods;
            distinct = distinct;
            is_run = is_run.0 (sym (ap (λ p. p.0) flags));
            is_covered = is_covered.0 (sym (ap (λ p. p.1) flags));
          },
      λ good. chain.1 (
        ground (arith, good.version_6),
        ap not (pinned.1 good.pinned),
        ap not (levels.1 good.levels),
        nonempty _ registry.targets good.is_run,
        loop.1 (
          good.approved,
          nothing_seen registry.targets,
          good.distinct,
          rw (is_run.1 good.is_run, is_covered.1 good.is_covered) refl,
        ),
      ),
    )
