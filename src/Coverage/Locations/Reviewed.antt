-- ===== src/Coverage/Locations/Reviewed.antt =====
-- What makes a location that is not executed acceptable, in words of its own: `record_of` and the two
-- checks in it of tools/fs2-dev/src/coverage/source_locations.rs.
use Prim.Native.String.{◌++◌, find, len}
use Prim.Native.Nat.{compare}
use Prim.Native.Nat.compare
use text.Mathlib.Text
use text.Mathlib.Text.{is_le, when}
use text.Mathlib.TextEquality.{eq_iff}
use text.Mathlib.TextFind.{find_cases}
use fs2_turbo.Base.{
  ℕ, zero, suc, String, true, false, ◌≡◌, ◌≢◌, ◌⊎◌, inl, inr, refl, ap, none, some, List, [], ◌∷◌,
  All, Any, Option-cases, Bool-cases, arith,
}
use fs2_turbo.Coverage.Keyed.{get}
use fs2_turbo.Coverage.Groups.{DefinitionKey, DefinitionGroupState, Groups, key_order}
use fs2_turbo.Coverage.Locations.{
  Location, Member, any_covered, all_uncovered_owned, is_covered, is_unit_owned, all_contain,
  symbols_reviewed, members_reviewed,
}
use fs2_turbo.Coverage.Locations.Gaps.{GapReview, Annotation, one_of, applies, first_review}

-- An annotation for the target and the location.
pub record IsFor (target : String) (location : Location) (a : Annotation) : Type 0 where
  pub targeted : Any (λ t. target ≡ t) a.targets
  pub source : location.0 ≡ a.source
  pub line : location.1 ≡ a.line
  pub column : location.2 ≡ a.column

one_of-Any :
    (target : String) (targets : List String)
    → one_of target targets ≡ true
    → Any (λ t. target ≡ t) targets
one_of-Any target [] h = absurd cc
one_of-Any target (t ∷ targets) h = elim (Bool-cases (Text.◌==◌ target t)) [
  | inl here ↦ inl ((eq_iff target t).0 here)
  | inr other ↦ inr (one_of-Any target targets (ground (arith, other)))
]

applies-IsFor :
    (target : String) (location : Location) (a : Annotation)
    → applies target location.0 location.1 location.2 a ≡ true
    → IsFor target location a
applies-IsFor target location a h = record {
  targeted = one_of-Any target a.targets (ground arith);
  source = (eq_iff location.0 a.source).0 (ground arith);
  line = ground arith;
  column = ground arith;
}

pub first_review-Any :
    (target : String) (location : Location) (review : GapReview) (arms : List Annotation)
    → first_review target location.0 location.1 location.2 arms ≡ some review
    → Any (λ a. IsFor target location a × (a.review ≡ review)) arms
unfolding first_review
first_review-Any target location review [] h = absurd cc
first_review-Any target location review (a ∷ arms) h =
    elim (Bool-cases (applies target location.0 location.1 location.2 a)) [
      | inl here ↦ inl (applies-IsFor target location a here, ground (arith, here))
      | inr other ↦ inr (first_review-Any target location review arms (ground (arith, other)))
    ]

-- One of the groups has an executed entry.
abbrev pub SomeExecuted : List Member → Type 0
SomeExecuted members = Any (λ member. member.2.covered_entries ≢ 0) members

-- The unit profile has executed the same group.
pub record IsOwned (units : Groups) (key : DefinitionKey) : Type 0 where
  pub state : DefinitionGroupState
  pub found : get key_order key units ≡ some state
  pub executed : state.covered_entries ≢ 0

-- The symbol is the fragment between two texts.
abbrev pub IsPart : String → String → Type 0
IsPart fragment symbol = (u : String) × (v : String) × (symbol ≡ u ++ (fragment ++ v))

-- There are symbols, and the fragment is part of each.
abbrev pub IsNamed : String → List String → Type 0
IsNamed fragment symbols = (symbols ≢ []) × All (IsPart fragment) symbols

pub executed-SomeExecuted :
    (members : List Member) → any_covered members ≡ true → SomeExecuted members
unfolding any_covered
executed-SomeExecuted [] h = absurd cc
executed-SomeExecuted (member ∷ members) h = elim (Bool-cases (is_covered member)) [
  | inl here ↦ inl (ground arith)
  | inr other ↦ inr (executed-SomeExecuted members (ground arith))
]

is_unit_owned-IsOwned :
    (units : Groups) (key : DefinitionKey) → is_unit_owned units key ≡ true → IsOwned units key
is_unit_owned-IsOwned units key h = elim (Option-cases (get key_order key units)) [
  | inl absent ↦ absurd (ground (arith, absent))
  | inr (state, e) ↦ record { state = state; found = e; executed = ground (arith, e) }
]

pub all_uncovered_owned-All :
    (units : Groups) (members : List Member)
    → all_uncovered_owned units members ≡ true
    → All (λ member. (member.2.covered_entries ≢ 0) ⊎ IsOwned units member.1) members
unfolding all_uncovered_owned
all_uncovered_owned-All units [] h = tt
all_uncovered_owned-All units (member ∷ members) h = (
  elim (Bool-cases (is_covered member)) [
    | inl here ↦ inl (ground arith)
    | inr other ↦ inr (is_unit_owned-IsOwned units member.1 (ground arith))
  ],
  all_uncovered_owned-All units members (ground arith),
)

past_end : (n : ℕ) → is_le (compare (suc n) n) ≡ false
past_end zero = ap is_le (compare.suc-zero zero)
past_end (suc n) = rw (compare.suc-suc (suc n) n) (past_end n)

missing :
    (symbol fragment : String)
    → find symbol fragment ≡ suc (len symbol)
    → Text.find? symbol fragment ≡ none
missing symbol fragment h = rw (h, past_end (len symbol)) refl

found-IsPart :
    (fragment symbol : String) (i : ℕ)
    → Text.find? symbol fragment ≡ some i
    → IsPart fragment symbol
found-IsPart fragment symbol i h = elim (find_cases symbol fragment) [
  | inl (u, v, same, at) ↦ (u, v, same)
  | inr missed ↦ let lost = missing symbol fragment missed in absurd cc
]

contain-All :
    (fragment : String) (symbols : List String)
    → all_contain fragment symbols ≡ true
    → All (IsPart fragment) symbols
unfolding all_contain
contain-All fragment [] h = tt
contain-All fragment (symbol ∷ symbols) h = elim (Option-cases (Text.find? symbol fragment)) [
  | inl absent ↦ absurd (ground (arith, absent))
  | inr (i, e) ↦
      (found-IsPart fragment symbol i e, contain-All fragment symbols (ground (arith, e)))
]

symbols-IsNamed :
    (fragment : String) (symbols : List String)
    → symbols_reviewed fragment symbols ≡ true
    → IsNamed fragment symbols
symbols-IsNamed fragment [] h = absurd cc
symbols-IsNamed fragment (symbol ∷ symbols) h = (cc, contain-All fragment (symbol ∷ symbols) h)

pub reviewed-All :
    (review : GapReview) (members : List Member)
    → members_reviewed review members ≡ true
    → All (λ member. IsNamed review.symbol_fragment member.2.symbols) members
unfolding members_reviewed
reviewed-All review [] h = tt
reviewed-All review (member ∷ members) h = (
  symbols-IsNamed review.symbol_fragment member.2.symbols (ground arith),
  reviewed-All review members (ground arith),
)
