-- ===== src/Coverage/Keyed.antt =====
-- `BTreeMap` as the coverage gate uses it: an association list in the order of its keys. `before`
-- is the derived `Ord`; only the order of a report depends on it.
use fs2_turbo.Base.{
  Bool, true, Option, none, some, List, [], ◌∷◌, ◌≡◌, ◌↔◌, refl, if◌then◌else◌, Option-cases, inl,
  inr, arith,
}

pub record KeyOrder (K : Type 0) : Type 0 where
  pub same : K → K → Bool
  pub before : K → K → Bool

-- Derived `Eq` is equality.
pub record KeyLaws {K : Type 0} (order : KeyOrder K) : Type 0 where
  pub same_iff : (j k : K) → (order.same j k ≡ true) ↔ (j ≡ k)

module _ {K V : Type 0} (order : KeyOrder K) where
  unfoldable pub get : K → List (K × V) → Option V
  get k [] = none
  get k ((j, v) ∷ m) = let rest = get k m in if order.same k j then some v else rest

  unfoldable pub insert : K → V → List (K × V) → List (K × V)
  insert k v [] = (k, v) ∷ []
  insert k v ((j, w) ∷ m) =
      let rest = insert k v m in if order.before k j then (k, v) ∷ (j, w) ∷ m else (j, w) ∷ rest

  unfoldable pub modify : K → (V → V) → List (K × V) → List (K × V)
  modify k f [] = []
  modify k f ((j, w) ∷ m) =
      let rest = modify k f m in if order.same k j then (j, f w) ∷ m else (j, w) ∷ rest

  -- `entry(k).or_insert(init)`, and a change of the value that it gives.
  unfoldable pub entry : K → V → (V → V) → List (K × V) → List (K × V)
  unfolding get insert modify
  entry k init f m = elim (get k m) [ none ↦ insert k (f init) m | some v ↦ modify k f m ]

  abbrev pub get_or_init : K → V → List (K × V) → V
  get_or_init k init m = elim (get k m) [ none ↦ init | some v ↦ v ]

module _ {K V : Type 0} (order : KeyOrder K) (laws : KeyLaws order) where
  get-insert :
      (j k : K) (v : V) (m : List (K × V))
      → get order k m ≡ none
      → get order j (insert order k v m) ≡ (if order.same j k then some v else get order j m)
  unfolding get insert
  get-insert j k v [] h = refl
  get-insert j k v ((i, w) ∷ m) h =
      ground (arith, get-insert j k v m, laws.same_iff j k, laws.same_iff j i, laws.same_iff k i)

  get-modify :
      (j k : K) (f : V → V) (m : List (K × V)) {v : V}
      → get order k m ≡ some v
      → get order j (modify order k f m) ≡ (if order.same j k then some (f v) else get order j m)
  unfolding get modify
  get-modify j k f [] h = ground arith
  get-modify j k f ((i, w) ∷ m) {v} h =
      ground
        (arith, get-modify j k f m {v = v}, laws.same_iff j k, laws.same_iff j i, laws.same_iff k i)

  -- An entry changes the value of its key, and of no other.
  pub get-entry :
      (j k : K) (init : V) (f : V → V) (m : List (K × V))
      → get order j (entry order k init f m)
        ≡ (if order.same j k then some (f (get_or_init order k init m)) else get order j m)
  unfolding entry
  get-entry j k init f m = elim (Option-cases (get order k m)) [
    | inl absent ↦ ground (arith, absent, get-insert j k (f init) m absent)
    | inr (v, e) ↦ ground (arith, e, get-modify j k f m e)
  ]
