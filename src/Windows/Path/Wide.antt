-- ===== src/Windows/Path/Wide.antt =====
-- The wide path is the same, byte for byte, as the plain null-terminated copy, also where it
-- outgrows the array on the stack, and no access leaves the array.
use fs2_turbo.Base.{
  ℕ, suc, ◌+◌, ◌<◌, ◌≡◌, refl, sym, ◌++◌, List, [], ◌∷◌, some, none, ok, err, map, append_assoc,
  map-append, length, length-append, length-replicate, length-map, replicate, arith, if◌then◌else◌,
  Bool-cases, inl, inr, ◌==◌,
}
use fs2_turbo.Base.Buffer.{Buffer, contains_null, null_error, null_terminated}
use fs2_turbo.Base.Buffer.Laws.{write-append, terminate_copy, from_raw_parts-prefix}
use fs2_turbo.Base.Io.{Io}
use fs2_turbo.Windows.Path.{push_rest, wide_loop, wide_units, with_wide_path}

push_rest_lem :
    (heap encoded : List ℕ)
    → push_rest heap encoded
      ≡ (if contains_null encoded then err null_error else ok (heap ++ (encoded ++ 0 ∷ [])))
unfolding push_rest contains_null
push_rest_lem heap [] = refl
push_rest_lem heap (u ∷ encoded) = elim (Bool-cases (u == 0)) [
  | inl null ↦ rw null
  | inr other ↦ rw other (simp append_assoc at (push_rest_lem (heap ++ u ∷ []) encoded))
]

wide_loop_lem :
    (capacity : ℕ) (encoded done : List ℕ) (rest : Buffer)
    → length done + length rest ≡ suc capacity
    → 0 < length rest
    → wide_loop capacity encoded (map some done ++ rest) (length done)
      ≡ (if contains_null encoded then err null_error else ok (done ++ (encoded ++ 0 ∷ [])))
unfolding wide_loop contains_null
wide_loop_lem capacity [] done rest e h = terminate_copy done rest h
wide_loop_lem capacity (u ∷ encoded) done [] e h = absurd (omega arith)
wide_loop_lem capacity (u ∷ encoded) done (cell ∷ rest) e h = elim (Bool-cases (u == 0)) [
  | inl null ↦ rw null
  | inr other ↦
      rw
        (
          other,
          from_raw_parts-prefix done (cell ∷ rest),
          write-append (length done) u (map some done) cell rest (sym (length-map some done)),
        )
        (elim (Bool-cases (length done == capacity)) [
          | inl full ↦ rw full (simp append_assoc at (push_rest_lem (done ++ u ∷ []) encoded))
          | inr room ↦ rw room (
              simp (map-append, append_assoc, length-append) at
                (wide_loop_lem capacity encoded (done ++ u ∷ []) rest
                  (omega (arith, length-append done (u ∷ []))) (ground arith)))
        ])
]

pub wide_units-null_terminated : (path : List ℕ) → wide_units path ≡ null_terminated path
unfolding wide_units null_terminated
wide_units-null_terminated path =
    let array : Buffer = replicate 261 none in
    let size : length array ≡ 261 = length-replicate 261 none in
    wide_loop_lem 260 path [] array (omega arith) (omega arith)

-- `with_wide_path` runs its operation on exactly the path's code units and one null, also where
-- the path outgrows the array of 261 units, and refuses a path with a null inside without running
-- the operation; no access leaves the array or meets an uninitialised unit.
pub with_wide_path_lem :
    {S A : Type 0} (path : List ℕ) (operation : List ℕ → Io S A) (s : S)
    → with_wide_path path operation s
      ≡ (if contains_null path then (err null_error, s) else operation (path ++ 0 ∷ []) s)
unfolding with_wide_path
with_wide_path_lem path operation s =
    rw (wide_units-null_terminated path) (unfold null_terminated in ground arith)
