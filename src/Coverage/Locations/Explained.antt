-- ===== src/Coverage/Locations/Explained.antt =====
-- What an accepted integration profile says of each location.
use fs2_turbo.Base.{
  ℕ, String, suc, ◌≡◌, ◌≢◌, ◌⊎◌, inl, inr, refl, sym, true, Option, some, List, [], ◌∷◌, ◌++◌, map,
  if◌then◌else◌, append_assoc, All, Any, Bool-cases, Option-cases, arith,
}
use mathlib.Core.List.{append-nil}
use text.Mathlib.TextEquality.{eq_iff}
use fs2_turbo.Coverage.{pass}
use fs2_turbo.Coverage.Keyed.{KeyLaws, entry, get, get_or_init, get-entry}
use fs2_turbo.Coverage.Groups.{DefinitionKey, DefinitionGroupState, Groups}
use fs2_turbo.Coverage.Locations.{
  Location, Member, SourceLocationRecord, location_order, location_of, locations_from, record_of,
  summarize, validate, any_covered, unit_ownership, unreviewed_locations, is_accepted,
}
use fs2_turbo.Coverage.Locations.Reviewed.{
  SomeExecuted, IsFor, first_review-Any, IsOwned, IsNamed, executed-SomeExecuted,
  all_uncovered_owned-All, reviewed-All,
}
use fs2_turbo.Coverage.Locations.Gaps.{GapReview, annotations, reviewed_gap}

pub location_order-KeyLaws : KeyLaws location_order
unfolding location_order
location_order-KeyLaws = record { same_iff = λ j k. ground (arith, eq_iff j.0 k.0) }

-- The members of a location, in the order of the groups.
unfoldable pub members_at : Location → ℕ → Groups → List Member
members_at location index [] = []
members_at location index ((key, state) ∷ groups) =
    let rest = members_at location (suc index) groups in
    if location_order.same location (location_of key) then (index, key, state) ∷ rest else rest

abbrev pub members_of : Location → List (Location × List Member) → List Member
members_of location locations = get_or_init location_order location [] locations

push-members_of :
    (location : Location) (index : ℕ) (key : DefinitionKey) (state : DefinitionGroupState)
    (locations : List (Location × List Member))
    → members_of location (
        entry location_order
          (location_of key)
          []
          (λ members. members ++ (index, key, state) ∷ [])
          locations)
      ≡ (if location_order.same location (location_of key)
          then members_of location locations ++ (index, key, state) ∷ []
          else members_of location locations)
push-members_of location index key state locations =
    elim (Bool-cases (location_order.same location (location_of key))) [
      | inl same ↦ rw ((location_order-KeyLaws.same_iff location (location_of key)).0 same) (
          ground (
            arith,
            get-entry location_order location_order-KeyLaws (location_of key) (location_of key) []
                (λ members. members ++ (index, key, state) ∷ []) locations,
            (location_order-KeyLaws.same_iff (location_of key) (location_of key)).1 refl,
          ))
      | inr other ↦ ground (
        arith,
        other,
        get-entry location_order location_order-KeyLaws location (location_of key) []
            (λ members. members ++ (index, key, state) ∷ []) locations,
      )
    ]

locations_from-members_at :
    (location : Location) (index : ℕ) (groups : Groups) (locations : List (Location × List Member))
    → members_of location (locations_from index groups locations)
      ≡ members_of location locations ++ members_at location index groups
unfolding locations_from members_at
locations_from-members_at location index [] locations =
    sym (append-nil (members_of location locations))
locations_from-members_at location index ((key, state) ∷ groups) locations =
    let pushed =
      entry location_order (location_of key) [] (λ members. members ++ (index, key, state) ∷ [])
        locations in
    ground (
      arith,
      locations_from-members_at location (suc index) groups pushed,
      push-members_of location index key state locations,
      append_assoc (members_of location locations) ((index, key, state) ∷ [])
          (members_at location (suc index) groups),
    )

-- What makes an unexecuted location acceptable: every unexecuted group of it is executed by the
-- unit profile, and a review of the location has a fragment that is part of every symbol.
pub record IsReviewed (target : String) (units : Groups) (location : Location)
    (members : List Member) : Type 0 where
  pub owned : All (λ member. (member.2.covered_entries ≢ 0) ⊎ IsOwned units member.1) members
  pub review : GapReview
  pub annotated : Any (λ a. IsFor target location a × (a.review ≡ review)) annotations
  pub named : All (λ member. IsNamed review.symbol_fragment member.2.symbols) members

accepted_explained :
    (target : String) (units : Groups) (location : Location) (members : List Member)
    → is_accepted (record_of target "integration" (some units) (location, members)) ≡ true
    → SomeExecuted members ⊎ IsReviewed target units location members
unfolding record_of unit_ownership reviewed_gap
accepted_explained target units location members h = elim (Bool-cases (any_covered members)) [
  | inl covered ↦ inl (executed-SomeExecuted members covered)
  | inr none_covered ↦ elim (Option-cases (reviewed_gap target location.0 location.1 location.2)) [
    | inl absent ↦ absurd (ground (arith, absent, none_covered))
    | inr (review, e) ↦ inr (record {
      owned = all_uncovered_owned-All units members (ground (arith, e, none_covered));
      review = review;
      annotated = first_review-Any target location review annotations e;
      named = reviewed-All review members (ground (arith, e, none_covered));
    })
  ]
]

record_accepted :
    (f : Location × List Member → SourceLocationRecord) (location : Location)
    (locations : List (Location × List Member)) {members : List Member}
    → unreviewed_locations (map f locations) ≡ []
    → get location_order location locations ≡ some members
    → is_accepted (f (location, members)) ≡ true
unfolding unreviewed_locations get
record_accepted f location [] h found = ground arith
record_accepted f location ((j, found_members) ∷ locations) {members} h found =
    elim (Bool-cases (location_order.same location j)) [
      | inl same ↦
          rw ((location_order-KeyLaws.same_iff location j).0 same)
            (ground (arith, same, Bool-cases (is_accepted (f (j, found_members)))))
      | inr other ↦ ground (arith, other, record_accepted f location locations {members = members})
    ]

integration_accepts :
    (target : String) (groups : Groups) (unit_groups : Option Groups)
    → validate (summarize target "integration" groups unit_groups) target "integration" ≡ pass tt
    → unreviewed_locations
        (map (record_of target "integration" unit_groups) (locations_from 0 groups []))
      ≡ []
unfolding validate summarize
integration_accepts target groups unit_groups h = ground arith

-- When the gate accepts an integration profile with a unit profile beside it, each location of a
-- definition group either has a group with an executed entry, or has an annotation for the target,
-- the source, the line and the column, whose fragment is part of every symbol of each group there,
-- of which each has one, and each group there without an executed entry has one in the unit
-- profile.
pub gaps_explained :
    (target : String) (groups units : Groups) (location : Location)
    → validate (summarize target "integration" groups (some units)) target "integration" ≡ pass tt
    → members_at location 0 groups ≢ []
    → SomeExecuted (members_at location 0 groups)
      ⊎ IsReviewed target units location (members_at location 0 groups)
gaps_explained target groups units location h some_member =
    let locations = locations_from 0 groups [] in
    let same = locations_from-members_at location 0 groups [] in
    elim (Option-cases (get location_order location locations)) [
      | inl absent ↦ absurd (unfold get in ground (arith, same, absent))
      | inr (members, e) ↦
          let agree : members_at location 0 groups ≡ members =
            unfold get in ground (arith, same, e) in
          rw agree (
            accepted_explained target units location members (
              record_accepted (record_of target "integration" (some units)) location locations
                (integration_accepts target groups (some units) h) e))
    ]
