-- ===== src/Windows/Control/Keeps.antt =====
-- A measure of the system that every control call and event keeps, the control operations keep.
use fs2_turbo.Base.{ℕ, pos, Bool, false, ◌≡◌, Result-cases, inl, inr, arith}
use fs2_turbo.Windows.Overlapped
use fs2_turbo.Windows.Overlapped.{EventSys, PrivateOverlapped, with_overlapped}
use fs2_turbo.Windows.Control.{
  ControlConstants, ControlSys, Request, submit_device_control, overlapped_device_io_control,
  set_sparse_file, clear_sparse_file, requested_range_is_allocated,
}

pub record CallsKeep {S F : Type 0} (events : EventSys S) (sys : ControlSys S F) (measure : S → ℕ)
    : Type 0 where
  pub create_keeps : (s : S) → measure (events.create_event s).1 ≡ measure s
  pub close_keeps : (h : ℕ) (s : S) → measure (events.close_handle h s) ≡ measure s
  pub control_keeps :
      (f : F) (r : Request) (o : PrivateOverlapped) (s : S)
      → measure (sys.device_io_control f r o s).1 ≡ measure s
  pub wait_keeps :
      (f : F) (o : PrivateOverlapped) (n : ℕ) (s : S)
      → measure (sys.get_overlapped_result f o n s).1 ≡ measure s

module _ {S F : Type 0} (c : ControlConstants) (events : EventSys S) (sys : ControlSys S F)
    (measure : S → ℕ) (keeps : CallsKeep events sys measure) where
  submit_keeps :
      (f : F) (r : Request) (o : PrivateOverlapped) (s : S)
      → measure (submit_device_control c events sys f r o s).1 ≡ measure s
  unfolding submit_device_control
  submit_keeps f r o s =
      let control = sys.device_io_control f r o s in
      ground (arith, keeps.control_keeps f r o s, keeps.wait_keeps f o control.0.returned control.1)

  device_keeps :
      (f : F) (r : Request) (s : S)
      → measure (overlapped_device_io_control c events sys f r s).1 ≡ measure s
  unfolding overlapped_device_io_control Overlapped.new
  device_keeps f r s = elim (Result-cases (Overlapped.new events s).0) [
    | inl (o, e) ↦ ground (
      arith,
      keeps.create_keeps s,
      submit_keeps f r o (events.create_event s).1,
      keeps.close_keeps o.event
          (submit_device_control c events sys f r o (events.create_event s).1).1,
    )
    | inr (x, e) ↦ ground (arith, keeps.create_keeps s)
  ]

  pub set_sparse_keeps :
      (f : F) (b : Bool) (s : S) → measure (set_sparse_file c events sys f b s).1 ≡ measure s
  unfolding set_sparse_file
  set_sparse_keeps f b s = device_keeps f (Request.set_sparse b) s

  pub clear_sparse_keeps :
      (f : F) (s : S) → measure (clear_sparse_file c events sys f s).1 ≡ measure s
  unfolding clear_sparse_file
  clear_sparse_keeps f s = set_sparse_keeps f false s

  pub range_query_keeps :
      (f : F) (n : ℕ) (s : S)
      → measure (requested_range_is_allocated c events sys f n s).1 ≡ measure s
  unfolding requested_range_is_allocated
  range_query_keeps f n s = ground (
    arith,
    device_keeps f (Request.query_allocated_ranges (record { file_offset = pos 0; len = pos n })) s,
  )
