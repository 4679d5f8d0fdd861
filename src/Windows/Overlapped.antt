-- ===== src/Windows/Overlapped.antt =====
-- The private event of an overlapped call: src/windows/overlapped.rs. A handle is its bits as a
-- `usize`; the null handle is 0.
pub mod Balance
use fs2_turbo.Base.{ℕ, ℤ, ◌==◌, os, Result, ok, err, bit_or, if◌then◌else◌}
use fs2_turbo.Base.Io.{Io}

-- `CreateEventW` gives a handle and what `GetLastError` says; `CloseHandle` closes one.
pub record EventSys (S : Type 0) : Type 0 where
  pub create_event : S → (ℕ × ℤ) × S
  pub close_handle : ℕ → S → S

-- `state.hEvent` is the tagged handle that the call is given.
pub record PrivateOverlapped : Type 0 where
  pub h_event : ℕ
  pub event : ℕ

unfoldable pub from_event : ℕ → ℤ → Result PrivateOverlapped
from_event event last_error =
    if event == 0
    then err (os last_error)
    else ok (record { h_event = bit_or event 1; event = event })

module _ {S : Type 0} (events : EventSys S) where
  -- `PrivateOverlapped::new`.
  unfoldable pub new : Io S PrivateOverlapped
  unfolding from_event
  new s = let (answer, s') = events.create_event s in (from_event answer.0 answer.1, s')

  -- `Drop::drop`.
  unfoldable pub drop_overlapped : PrivateOverlapped → S → S
  drop_overlapped overlapped s = events.close_handle overlapped.event s

  -- The scope of a variable `overlapped`: on every way out of it the value is dropped.
  unfoldable pub with_overlapped {ℓ} :
      {A : Type ℓ} → (PrivateOverlapped → S → A × S) → PrivateOverlapped → S → A × S
  unfolding drop_overlapped
  with_overlapped body overlapped s =
      let (a, s') = body overlapped s in (a, drop_overlapped overlapped s')
