-- ===== src/Windows/Allocation/Sparse.antt =====
-- A sparse range is reported as reserved only where a query has seen it allocated.
use fs2_turbo.Base.{ℕ, Bool, true, false, ◌≡◌, ◌⊎◌, ◌↔◌, ok, arith}
use fs2_turbo.Base.Io.{Io}
use fs2_turbo.Windows.Allocation.{reserve_sparse_range_with}

module _ {S : Type 0} (query : Io S Bool) (clear restore : Io S (Unit {0})) where
  -- Reserving a sparse range succeeds exactly when the first query finds it allocated, or when
  -- that finds it not, clearing and restoring the sparse flag both succeed in that order, and the
  -- query made after them finds it allocated.
  pub reserve_sparse_range_iff :
      (s : S)
      → ((reserve_sparse_range_with query clear restore s).0 ≡ ok tt) ↔ (
          ((query s).0 ≡ ok true)
          ⊎ (((query s).0 ≡ ok false)
              × ((clear (query s).1).0 ≡ ok tt)
              × ((restore (clear (query s).1).1).0 ≡ ok tt)
              × ((query (restore (clear (query s).1).1).1).0 ≡ ok true)))
  unfolding reserve_sparse_range_with
  reserve_sparse_range_iff s = (λ h. ground arith, λ h. ground arith)

  -- A measure that the three actions keep, the whole keeps.
  pub reserve_sparse_range_keeps :
      (measure : S → ℕ)
      → ((t : S) → measure (query t).1 ≡ measure t)
      → ((t : S) → measure (clear t).1 ≡ measure t)
      → ((t : S) → measure (restore t).1 ≡ measure t)
      → (s : S) → measure (reserve_sparse_range_with query clear restore s).1 ≡ measure s
  unfolding reserve_sparse_range_with
  reserve_sparse_range_keeps measure q c r s =
      let asked = (query s).1 in
      let cleared = (clear asked).1 in
      let restored = (restore cleared).1 in ground (arith, q s, c asked, r cleared, q restored)
