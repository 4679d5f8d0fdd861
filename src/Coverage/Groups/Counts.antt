-- ===== src/Coverage/Groups/Counts.antt =====
-- What a group counts: the instantiations of its definition, and those that were executed.
use fs2_turbo.Base.{
  ℕ, ◌+◌, ◌==◌, ◌≡◌, ◌↔◌, refl, not, ◌&&◌, Bool, true, false, none, some, List, [], ◌∷◌,
  if◌then◌else◌, Bool-cases, inl, inr, arith,
}
use text.Mathlib.TextEquality.{eq_iff}
use fs2_turbo.Coverage.{Verdict-cases, pass, reject}
use fs2_turbo.Coverage.Keyed.{KeyLaws, get_or_init, get, get-entry}
use fs2_turbo.Coverage.Groups.{
  FunctionCoverage, Region, DefinitionKey, DefinitionGroupState, Groups, definition_key,
  definition_groups, groups_from, add_entry, key_order, same_regions, empty_group, count_entry,
}

same_regions_iff : (rs qs : List Region) → (same_regions rs qs ≡ true) ↔ (rs ≡ qs)
unfolding same_regions
same_regions_iff [] [] = (λ h. refl, λ h. refl)
same_regions_iff [] (q ∷ qs) = ground arith
same_regions_iff (r ∷ rs) [] = ground arith
same_regions_iff (r ∷ rs) (q ∷ qs) = ground (arith, same_regions_iff rs qs)

pub key_order-KeyLaws : KeyLaws key_order
unfolding key_order
key_order-KeyLaws = record {
  same_iff =
      λ j k. ground (arith, eq_iff j.filename k.filename, same_regions_iff j.regions k.regions);
}

-- The key of an instantiation is the key `k`.
abbrev pub has_key : DefinitionKey → FunctionCoverage → Bool
has_key k function = elim (definition_key function) [
  | pass (some j) ↦ key_order.same k j
  | pass none ↦ false
  | reject r ↦ false
]

-- How many instantiations have the key, and how many of them were executed.
abbrev pub instantiations : DefinitionKey → List FunctionCoverage → ℕ
instantiations k [] = 0
instantiations k (f ∷ fs) = if has_key k f then instantiations k fs + 1 else instantiations k fs

abbrev pub executed : DefinitionKey → List FunctionCoverage → ℕ
executed k [] = 0
executed k (f ∷ fs) = if has_key k f && not (f.count == 0) then executed k fs + 1 else executed k fs

abbrev pub group_of : DefinitionKey → Groups → DefinitionGroupState
group_of k groups = get_or_init key_order k empty_group groups

add_entry_other :
    (k j : DefinitionKey) (f : FunctionCoverage) (groups : Groups)
    → key_order.same k j ≡ false
    → group_of k (add_entry (some j) f groups) ≡ group_of k groups
unfolding add_entry
add_entry_other k j f groups h =
    ground (arith, get-entry key_order key_order-KeyLaws k j empty_group (count_entry f) groups, h)

add_entry-none : (f : FunctionCoverage) (groups : Groups) → add_entry none f groups ≡ groups
unfolding add_entry
add_entry-none f groups = refl

add_entry_same :
    (k j : DefinitionKey) (f : FunctionCoverage) (groups : Groups)
    → key_order.same k j ≡ true
    → group_of k (add_entry (some j) f groups) ≡ count_entry f (group_of k groups)
unfolding add_entry
add_entry_same k j f groups h = rw ((key_order-KeyLaws.same_iff k j).0 h) (
    ground (
      arith,
      get-entry key_order key_order-KeyLaws j j empty_group (count_entry f) groups,
      (key_order-KeyLaws.same_iff j j).1 refl,
    ))

groups_from_counts :
    (k : DefinitionKey) (fs : List FunctionCoverage) (m : Groups) {groups : Groups}
    → groups_from fs m ≡ pass groups
    → ((group_of k groups).entries ≡ (group_of k m).entries + instantiations k fs)
      × ((group_of k groups).covered_entries ≡ (group_of k m).covered_entries + executed k fs)
unfolding groups_from count_entry
groups_from_counts k [] m {groups} h = ground arith
groups_from_counts k (f ∷ fs) m {groups} h = elim (Verdict-cases (definition_key f)) [
  | inl (none, e) ↦
      ground (
        arith,
        e,
        groups_from_counts k fs (add_entry none f m) {groups = groups},
        add_entry-none f m,
      )
  | inl (some j, e) ↦ elim (Bool-cases (key_order.same k j)) [
    | inl same ↦ ground (
      arith,
      e,
      add_entry_same k j f m same,
      groups_from_counts k fs (add_entry (some j) f m) {groups = groups},
    )
    | inr other ↦ ground (
      arith,
      e,
      add_entry_other k j f m other,
      groups_from_counts k fs (add_entry (some j) f m) {groups = groups},
    )
  ]
  | inr (r, e) ↦ ground (arith, e)
]

-- If no region is malformed, the group of a definition counts exactly the instantiations with its
-- key, and exactly those of them that were executed.
pub definition_groups_count :
    (k : DefinitionKey) (fs : List FunctionCoverage) {groups : Groups}
    → definition_groups fs ≡ pass groups
    → ((group_of k groups).entries ≡ instantiations k fs)
      × ((group_of k groups).covered_entries ≡ executed k fs)
unfolding definition_groups get
definition_groups_count k fs h = ground (arith, groups_from_counts k fs [] h)
