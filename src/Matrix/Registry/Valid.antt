-- ===== src/Matrix/Registry/Valid.antt =====
-- Which registries are accepted: `validate_registry` of tools/fs2-dev/src/matrix.rs.
use text.Mathlib.TextEquality.{eq_iff}
use fs2_turbo.Base.{
  String, Bool, true, false, List, [], ◌∷◌, Option, none, some, ◌≡◌, ◌≢◌, ◌↔◌, ◌⊎◌, refl, ap, Error,
  ok, fail_if, bind-ok, arith,
}
use fs2_turbo.Matrix.{
  EvidenceLevel, Runner, CiSpec, TargetSpec, AllocationCapability, is_not_covered, is_unknown,
  is_ci_job_name, expected_runtime_runner, runner_is,
}
use fs2_turbo.Matrix.Registry.{
  same_texts, runner_matches, validate_ci, validate_evidence, require_ci, validate_covered,
}

-- The toolchains and the runner of a level.
abbrev pub IsSuited : String → String → EvidenceLevel → CiSpec → Type 0
IsSuited rust_version target EvidenceLevel.runtime ci =
    (ci.toolchains ≡ rust_version ∷ "stable" ∷ [])
    × (expected_runtime_runner target ≡ some ci.runner)
IsSuited rust_version target EvidenceLevel.compile ci =
    ((ci.toolchains ≡ rust_version ∷ []) ⊎ (ci.toolchains ≡ "nightly" ∷ [])) × (ci.coverage ≡ false)
IsSuited rust_version target EvidenceLevel.not_covered ci = ⊥

-- A target with the jobs that its level asks for, and without any when it is not covered.
pub data IsSupported (rust_version : String) (entry : TargetSpec) : Type 0 where
  uncovered :
      entry.evidence ≡ EvidenceLevel.not_covered
      → entry.allocation ≡ AllocationCapability.unknown
      → entry.ci ≡ none
      → IsSupported rust_version entry
  covered :
      {ci : CiSpec}
      → entry.allocation ≢ AllocationCapability.unknown
      → entry.ci ≡ some ci
      → is_ci_job_name ci.job ≡ true
      → IsSuited rust_version entry.target entry.evidence ci
      → IsSupported rust_version entry

same_texts_iff : (ss ts : List String) → (same_texts ss ts ≡ true) ↔ (ss ≡ ts)
unfolding same_texts
same_texts_iff [] [] = (λ _. refl, λ _. refl)
same_texts_iff [] (t ∷ ts) = (λ h. absurd cc, λ h. absurd cc)
same_texts_iff (s ∷ ss) [] = (λ h. absurd cc, λ h. absurd cc)
same_texts_iff (s ∷ ss) (t ∷ ts) = ground (arith, eq_iff s t, same_texts_iff ss ts)

runner_is-eq : (r r' : Runner) → runner_is r r' ≡ true → r ≡ r'
runner_is-eq Runner.mac_os_intel Runner.mac_os_intel h = refl
runner_is-eq Runner.mac_os_intel Runner.mac_os h = absurd cc
runner_is-eq Runner.mac_os_intel Runner.ubuntu h = absurd cc
runner_is-eq Runner.mac_os_intel Runner.windows h = absurd cc
runner_is-eq Runner.mac_os Runner.mac_os_intel h = absurd cc
runner_is-eq Runner.mac_os Runner.mac_os h = refl
runner_is-eq Runner.mac_os Runner.ubuntu h = absurd cc
runner_is-eq Runner.mac_os Runner.windows h = absurd cc
runner_is-eq Runner.ubuntu Runner.mac_os_intel h = absurd cc
runner_is-eq Runner.ubuntu Runner.mac_os h = absurd cc
runner_is-eq Runner.ubuntu Runner.ubuntu h = refl
runner_is-eq Runner.ubuntu Runner.windows h = absurd cc
runner_is-eq Runner.windows Runner.mac_os_intel h = absurd cc
runner_is-eq Runner.windows Runner.mac_os h = absurd cc
runner_is-eq Runner.windows Runner.ubuntu h = absurd cc
runner_is-eq Runner.windows Runner.windows h = refl

runner_is_refl : (r : Runner) → runner_is r r ≡ true
runner_is_refl Runner.mac_os_intel = refl
runner_is_refl Runner.mac_os = refl
runner_is_refl Runner.ubuntu = refl
runner_is_refl Runner.windows = refl

runner_matches_iff :
    (expected : Option Runner) (r : Runner)
    → (runner_matches expected r ≡ true) ↔ (expected ≡ some r)
runner_matches_iff none r = (λ h. absurd cc, λ h. absurd cc)
runner_matches_iff (some r') r =
    (λ h. ap some (runner_is-eq r' r h), λ h. let same : r' ≡ r = cc in rw same (runner_is_refl r))

passes : (b : Bool) (e : Error) → fail_if b e ≡ ok tt → b ≡ false
passes false e h = refl
passes true e h = absurd cc

abbrev pub coverage_of : Option CiSpec → Bool
coverage_of (some ci) = ci.coverage
coverage_of none = false

validate_ci_iff :
    (v t p : String) (e : EvidenceLevel) (a : AllocationCapability) (ci : CiSpec)
    (found : Option CiSpec)
    → is_not_covered e ≡ false
    → (validate_ci v
          (record { target = t; platform = p; evidence = e; allocation = a; ci = found })
          ci
        ≡ ok tt)
      ↔ ((is_ci_job_name ci.job ≡ true) × IsSuited v t e ci)
unfolding validate_ci
validate_ci_iff v t p EvidenceLevel.runtime a ci found h =
    let toolchains = same_texts_iff ci.toolchains (v ∷ "stable" ∷ []) in
    let runner = runner_matches_iff (expected_runtime_runner t) ci.runner in
    ground (arith, toolchains, runner)
validate_ci_iff v t p EvidenceLevel.compile a ci found h =
    let packaged = same_texts_iff ci.toolchains (v ∷ []) in
    let nightly = same_texts_iff ci.toolchains ("nightly" ∷ []) in ground (arith, packaged, nightly)
validate_ci_iff v t p EvidenceLevel.not_covered a ci found h = absurd cc

covered-IsSupported :
    (v t p : String) (e : EvidenceLevel) (a : AllocationCapability) (found : Option CiSpec)
    (c : Bool)
    → is_not_covered e ≡ false
    → let entry : TargetSpec = record {
      target = t;
      platform = p;
      evidence = e;
      allocation = a;
      ci = found;
    } in
      validate_covered v entry ≡ ok c → IsSupported v entry × (c ≡ coverage_of found)
unfolding validate_covered require_ci
covered-IsSupported v t p e AllocationCapability.unknown found c level h = absurd cc
covered-IsSupported v t p e AllocationCapability.unsupported none c level h = absurd cc
covered-IsSupported v t p e AllocationCapability.physical_reservation none c level h = absurd cc
covered-IsSupported v t p e AllocationCapability.unsupported (some ci) c level h =
    let (u, valid, same) =
      bind-ok
        (validate_ci v
          (record {
            target = t;
            platform = p;
            evidence = e;
            allocation = AllocationCapability.unsupported;
            ci = some ci;
          })
          ci)
        (λ _. ok ci.coverage) c h in
    let (named, suited) =
      (validate_ci_iff v t p e AllocationCapability.unsupported ci (some ci) level).0 valid in
    (covered {ci = ci} (λ p. absurd cc) (refl {a = some ci}) named suited, cc)
covered-IsSupported v t p e AllocationCapability.physical_reservation (some ci) c level h =
    let (u, valid, same) =
      bind-ok
        (validate_ci v
          (record {
            target = t;
            platform = p;
            evidence = e;
            allocation = AllocationCapability.physical_reservation;
            ci = some ci;
          })
          ci)
        (λ _. ok ci.coverage) c h in
    let (named, suited) =
      (validate_ci_iff v t p e AllocationCapability.physical_reservation ci (some ci) level).0
        valid in
    (covered {ci = ci} (λ p. absurd cc) (refl {a = some ci}) named suited, cc)

pub evidence-IsSupported :
    (v t p : String) (e : EvidenceLevel) (a : AllocationCapability) (found : Option CiSpec)
    (c : Bool)
    → let entry : TargetSpec = record {
      target = t;
      platform = p;
      evidence = e;
      allocation = a;
      ci = found;
    } in
      validate_evidence v entry ≡ ok c → IsSupported v entry × (c ≡ coverage_of found)
unfolding validate_evidence
evidence-IsSupported v t p EvidenceLevel.not_covered AllocationCapability.unknown none c h =
    (uncovered refl refl refl, cc)
evidence-IsSupported v t p EvidenceLevel.not_covered AllocationCapability.unknown (some ci) c h =
    absurd cc
evidence-IsSupported v t p EvidenceLevel.not_covered AllocationCapability.unsupported found c h =
    absurd cc
evidence-IsSupported v t p EvidenceLevel.not_covered AllocationCapability.physical_reservation found
      c h =
    absurd cc
evidence-IsSupported v t p EvidenceLevel.runtime a found c h =
    covered-IsSupported v t p EvidenceLevel.runtime a found c refl h
evidence-IsSupported v t p EvidenceLevel.compile a found c h =
    covered-IsSupported v t p EvidenceLevel.compile a found c refl h

suited-level :
    (v t : String) (e : EvidenceLevel) (ci : CiSpec) → IsSuited v t e ci → is_not_covered e ≡ false
suited-level v t EvidenceLevel.runtime ci h = refl
suited-level v t EvidenceLevel.compile ci h = refl
suited-level v t EvidenceLevel.not_covered ci h = absurd h

known : (a : AllocationCapability) → a ≢ AllocationCapability.unknown → is_unknown a ≡ false
known AllocationCapability.physical_reservation h = refl
known AllocationCapability.unsupported h = refl
known AllocationCapability.unknown h = absurd (h refl)

-- The other direction, by the ways in which a target is supported.
covered-evidence :
    (v t p : String) (e : EvidenceLevel) (a : AllocationCapability) (ci : CiSpec)
    → a ≢ AllocationCapability.unknown
    → is_ci_job_name ci.job ≡ true
    → IsSuited v t e ci
    → validate_evidence v
        (record { target = t; platform = p; evidence = e; allocation = a; ci = some ci })
      ≡ ok ci.coverage
unfolding validate_evidence validate_covered require_ci
covered-evidence v t p e a ci amount named suited =
    let level = suited-level v t e ci suited in
    let valid = (validate_ci_iff v t p e a ci (some ci) level).1 (named, suited) in
    rw (level, known a amount, valid) refl

pub IsSupported-evidence :
    (v t p : String) (e : EvidenceLevel) (a : AllocationCapability) (found : Option CiSpec)
    → let entry : TargetSpec = record {
      target = t;
      platform = p;
      evidence = e;
      allocation = a;
      ci = found;
    } in
      IsSupported v entry → validate_evidence v entry ≡ ok (coverage_of found)
unfolding validate_evidence
IsSupported-evidence v t p e a found (uncovered level amount jobs) = rw (level, amount, jobs) refl
IsSupported-evidence v t p e a found (covered {ci} amount jobs named suited) =
    rw jobs (covered-evidence v t p e a ci amount named suited)
