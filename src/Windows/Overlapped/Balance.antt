-- ===== src/Windows/Overlapped/Balance.antt =====
-- An event is closed exactly once, by the handle that it was created with.
use fs2_turbo.Base.{ℕ, ◌≡◌, ◌≢◌, Error, List, ◌∷◌, ok, err, arith}
use fs2_turbo.Windows.Overlapped.{EventSys, PrivateOverlapped, new, with_overlapped}

-- The open events of the process. A null handle means that none was created.
pub record EventLaws {S : Type 0} (events : EventSys S) : Type 0 where
  pub open_events : S → List ℕ
  pub create_opens :
      (s : S)
      → (events.create_event s).0.0 ≢ 0
      → open_events (events.create_event s).1 ≡ (events.create_event s).0.0 ∷ open_events s
  pub create_fails :
      (s : S)
      → (events.create_event s).0.0 ≡ 0
      → open_events (events.create_event s).1 ≡ open_events s
  pub close_closes :
      (h : ℕ) (s : S) (rest : List ℕ)
      → open_events s ≡ h ∷ rest
      → open_events (events.close_handle h s) ≡ rest

module _ {S : Type 0} (events : EventSys S) (laws : EventLaws events) where
  -- A scope that opens an event and keeps the others leaves as many as it found.
  pub with_overlapped_balance :
      {A : Type 0} (body : PrivateOverlapped → S → A × S) (s : S) (o : PrivateOverlapped)
      → (new events s).0 ≡ ok o
      → laws.open_events (body o (new events s).1).1 ≡ laws.open_events (new events s).1
      → laws.open_events (with_overlapped events body o (new events s).1).1 ≡ laws.open_events s
  unfolding new with_overlapped
  with_overlapped_balance body s o e keep = ground (
    arith,
    laws.create_opens s,
    laws.close_closes o.event (body o (events.create_event s).1).1 (laws.open_events s),
  )

  pub new_fails :
      (s : S) {e : Error}
      → (new events s).0 ≡ err e
      → laws.open_events (new events s).1 ≡ laws.open_events s
  unfolding new
  new_fails s h = ground (arith, laws.create_fails s)
