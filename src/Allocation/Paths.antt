-- ===== src/Allocation/Paths.antt =====
-- Which calls an allocation makes.
use fs2_turbo.Base.{ℕ, ◌<◌, ◌≡◌, true, ok, map_ok, arith}
use fs2_turbo.Allocation.{AllocationState, Sys, allocate, allocate_with_state, finish_allocation}

module _ {S F : Type 0} (sys : Sys S F) where
  -- An allocation of zero bytes queries the state, reports that query's failure, and does nothing
  -- else.
  pub allocate-zero :
      (f : F) (s : S)
      → allocate sys f 0 s
        ≡ (map_ok (λ _. tt) (sys.allocation_state f s).0, (sys.allocation_state f s).1)
  unfolding allocate allocate_with_state finish_allocation
  allocate-zero f s = ground arith

  -- Where the platform always reserves, a successful allocation of a byte or more has had a
  -- successful reservation of the whole length, made on the state that was queried.
  pub allocate_reserves :
      (f : F) (n : ℕ) (s : S)
      → sys.always_reserve_range ≡ true
      → 0 < n
      → (allocate sys f n s).0 ≡ ok tt
      → (a : AllocationState) × ((sys.allocation_state f s).0 ≡ ok a)
        × ((sys.allocate_space f a n (sys.allocation_state f s).1).0 ≡ ok tt)
  unfolding allocate allocate_with_state finish_allocation
  allocate_reserves f n s always p h = ground arith
