-- ===== src/Coverage/Groups/Owned.antt =====
-- Residuals of the integration profile: the end of `validate_integration_instantiations` in
-- tools/fs2-dev/src/coverage.rs.
use fs2_turbo.Base.{
  ℕ, String, ◌<◌, ◌==◌, ◌≡◌, ◌≢◌, ◌&&◌, Bool, true, none, some, List, [], ◌∷◌, if◌then◌else◌,
  Bool-cases, Option-cases, inl, inr, arith,
}
use fs2_turbo.Coverage.{Rejection, Verdict, pass, reject}
use fs2_turbo.Coverage.Keyed.{get}
use fs2_turbo.Coverage.Groups.{
  FunctionCoverage, DefinitionKey, DefinitionGroupState, Groups, definition_groups, key_order,
}
use fs2_turbo.Coverage.Groups.Counts.{
  key_order-KeyLaws, instantiations, executed, group_of, definition_groups_count,
}

-- A definition as `definition_id` names it: the file, the line and the column.
abbrev pub definition_id : DefinitionKey → String × ℕ × ℕ
definition_id key = (key.filename, key.line, key.column)

-- `is_none_or(|state| state.covered_entries == 0)`.
abbrev pub is_unowned : Groups → DefinitionKey → Bool
is_unowned unit_groups key = elim (get key_order key unit_groups) [
  | none ↦ true
  | some state ↦ state.covered_entries == 0
]

unfoldable pub unowned_definitions : Groups → Groups → List (String × ℕ × ℕ)
unowned_definitions unit_groups [] = []
unowned_definitions unit_groups ((key, state) ∷ groups) =
    let rest = unowned_definitions unit_groups groups in
    if state.covered_entries == 0 && is_unowned unit_groups key
    then definition_id key ∷ rest
    else rest

unfoldable pub validate_ownership : String → Groups → Groups → Verdict (Unit {0})
validate_ownership target unit_groups integration_groups =
    elim (unowned_definitions unit_groups integration_groups) [
      | [] ↦ pass tt
      | (id ∷ unowned) ↦ reject (Rejection.unowned target (id ∷ unowned))
    ]

owned_lookup :
    (unit_groups groups : Groups) (k : DefinitionKey) {state : DefinitionGroupState}
    → unowned_definitions unit_groups groups ≡ []
    → get key_order k groups ≡ some state
    → state.covered_entries ≡ 0
    → (group_of k unit_groups).covered_entries ≢ 0
unfolding unowned_definitions get
owned_lookup unit_groups [] k h found zero = ground arith
owned_lookup unit_groups ((j, s) ∷ groups) k {state} h found zero =
    elim (Bool-cases (key_order.same k j)) [
      | inl same ↦ rw ((key_order-KeyLaws.same_iff k j).0 same) (ground (arith, same))
      | inr other ↦ ground (arith, other, owned_lookup unit_groups groups k {state = state})
    ]

accepted_unowned :
    (target : String) (unit_groups groups : Groups)
    → validate_ownership target unit_groups groups ≡ pass tt
    → unowned_definitions unit_groups groups ≡ []
unfolding validate_ownership
accepted_unowned target unit_groups groups h = ground arith

-- When the gate accepts the ownership of residuals, every definition that has an instantiation in
-- the integration profile and none executed there has an executed instantiation in the unit
-- profile.
pub residuals_owned :
    (target : String) (unit_functions integration_functions : List FunctionCoverage)
    (k : DefinitionKey) {unit_groups groups : Groups}
    → definition_groups unit_functions ≡ pass unit_groups
    → definition_groups integration_functions ≡ pass groups
    → validate_ownership target unit_groups groups ≡ pass tt
    → 0 < instantiations k integration_functions
    → executed k integration_functions ≡ 0
    → 0 < executed k unit_functions
residuals_owned target unit_functions integration_functions k {unit_groups} {groups} u g h
      some_entry none_executed =
    let unit = definition_groups_count k unit_functions u in
    let integration = definition_groups_count k integration_functions g in
    elim (Option-cases (get key_order k groups)) [
      | inl absent ↦ absurd (ground (arith, integration, absent))
      | inr (state, e) ↦ ground (
        arith,
        unit,
        integration,
        owned_lookup unit_groups groups k (accepted_unowned target unit_groups groups h) e,
      )
    ]
