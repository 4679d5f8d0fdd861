-- ===== src/Windows/Control/Events.antt =====
-- A control call, pending or not, closes the event that it created.
use fs2_turbo.Base.{ℕ, ◌≡◌, Result-cases, inl, inr, arith}
use fs2_turbo.Windows.Overlapped
use fs2_turbo.Windows.Overlapped.{EventSys, PrivateOverlapped}
use fs2_turbo.Windows.Overlapped.Balance.{EventLaws, with_overlapped_balance, new_fails}
use fs2_turbo.Windows.Control.{
  ControlConstants, ControlSys, Request, submit_device_control, overlapped_device_io_control,
}

pub record ControlsKeepEvents {S F : Type 0} (events : EventSys S) (laws : EventLaws events)
    (sys : ControlSys S F) : Type 0 where
  pub control_keeps :
      (f : F) (r : Request) (o : PrivateOverlapped) (s : S)
      → laws.open_events (sys.device_io_control f r o s).1 ≡ laws.open_events s
  pub wait_keeps :
      (f : F) (o : PrivateOverlapped) (n : ℕ) (s : S)
      → laws.open_events (sys.get_overlapped_result f o n s).1 ≡ laws.open_events s

module _ {S F : Type 0} (c : ControlConstants) (events : EventSys S) (sys : ControlSys S F)
    (laws : EventLaws events) (keeps : ControlsKeepEvents events laws sys) where
  submit_keeps :
      (f : F) (r : Request) (o : PrivateOverlapped) (s : S)
      → laws.open_events (submit_device_control c events sys f r o s).1 ≡ laws.open_events s
  unfolding submit_device_control
  submit_keeps f r o s =
      let control = sys.device_io_control f r o s in
      ground (arith, keeps.control_keeps f r o s, keeps.wait_keeps f o control.0.returned control.1)

  -- Whatever the calls answer, at once, pending or with no event to be had, a device control
  -- leaves exactly the open events that it found.
  pub control_balance :
      (f : F) (r : Request) (s : S)
      → laws.open_events (overlapped_device_io_control c events sys f r s).1 ≡ laws.open_events s
  unfolding overlapped_device_io_control
  control_balance f r s = elim (Result-cases (Overlapped.new events s).0) [
    | inl (o, e) ↦
        let body = submit_device_control c events sys f r in
        ground (
          arith,
          with_overlapped_balance events laws body s o e
              (submit_keeps f r o (Overlapped.new events s).1),
        )
    | inr (x, e) ↦ ground (arith, new_fails events laws s e)
  ]
