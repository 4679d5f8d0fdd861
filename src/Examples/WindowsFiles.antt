-- ===== src/Examples/WindowsFiles.antt =====
-- A Windows volume with one sparse file, whose range is backed only after its flag is cleared.
use fs2_turbo.Base.{
  ℕ, pos, pos_part, ◌≡◌, inr, refl, Bool, true, false, List, [], ◌∷◌, ok, ltb, if◌then◌else◌, arith,
}
use fs2_turbo.Base.Io.{Io}
use fs2_turbo.Windows.Path.{Call}
use fs2_turbo.Windows.Overlapped.{EventSys, new}
use fs2_turbo.Windows.Overlapped.Balance.{EventLaws}
use fs2_turbo.Windows.Control.{
  ControlConstants, ControlSys, Request, overlapped_device_io_control, requested_range_is_allocated,
  submit_device_control, clear_sparse_file, set_sparse_file,
}
use fs2_turbo.Windows.Control.Events.{ControlsKeepEvents, control_balance}
use fs2_turbo.Windows.Allocation.{
  Attributes, FileSys, allocate, allocate_with_attributes_result, file_attributes_and_state,
  allocate_with_attributes, allocate_sparse_space, extend_file_length, reserve_sparse_range,
  reserve_sparse_range_with,
}
use fs2_turbo.Windows.Allocation.Length.{LengthLaws, allocate_exact}
use fs2_turbo.Windows.Allocation.Sparse.{reserve_sparse_range_iff}

record Volume : Type 0 where
  len : ℕ
  attributes : ℕ
  backed : ℕ
  open_events : List ℕ

abbrev done : Call
done = record { result = pos 1; last_error = pos 0 }

abbrev pending : Call
pending = record { result = pos 0; last_error = pos 997 }

abbrev close_first : List ℕ → List ℕ
close_first [] = []
close_first (e ∷ es) = es

abbrev events : EventSys Volume
events = record {
  create_event = λ s. ((68, pos 0), record s { open_events = 68 ∷ s.open_events });
  close_handle = λ h s. record s { open_events = close_first s.open_events };
}

-- Clearing the flag backs the whole file; a query answers with the backed prefix.
abbrev after_request : Request → Volume → Volume
after_request (Request.set_sparse false) s = record s { backed = s.len }
after_request (Request.set_sparse true) s = s
after_request (Request.query_allocated_ranges range) s = s

-- Each control call is pending at first, and done when it has been waited for.
abbrev controls : ControlSys Volume ℕ
controls = record {
  device_io_control = λ f request o s. (
    record { call = pending; returned = 0; range = record { file_offset = pos 0; len = pos 0 } },
    after_request request s,
  );
  get_overlapped_result = λ f o n s. (
    record {
      call = done;
      returned = 16;
      range = record { file_offset = pos 0; len = pos s.backed };
    },
    s,
  );
}

abbrev sys : FileSys Volume ℕ
sys = record {
  standard_info =
      λ f s. (record { call = done; allocation_size = pos s.backed; end_of_file = pos s.len }, s);
  basic_info = λ f s. ((done, s.attributes), s);
  set_allocation =
      λ f n s. (done, record s { len = if ltb (pos_part n) s.len then pos_part n else s.len });
  metadata_len = λ f s. (ok s.len, s);
  set_len = λ f n s. (ok tt, record s { len = n });
}

abbrev attributes : Attributes
attributes = record {
  offline = 0x1000;
  recall_on_data_access = 0x40_0000;
  recall_on_open = 0x4_0000;
  compressed = 0x800;
  sparse_file = 0x200;
}

abbrev constants : ControlConstants
constants = record {
  error_io_pending = pos 997;
  error_more_data = pos 234;
  error_invalid_function = pos 1;
  error_invalid_parameter = pos 87;
  error_not_supported = pos 50;
  size_of_range = 16;
}

abbrev sparse : Volume
sparse = record { len = 10; attributes = 0x200; backed = 0; open_events = 12 ∷ [] }

abbrev compressed : Volume
compressed = record { len = 10; attributes = 0x820; backed = 0; open_events = [] }

after_request_keeps_len : (r : Request) (s : Volume) → (after_request r s).len ≡ s.len
after_request_keeps_len (Request.set_sparse false) s = refl
after_request_keeps_len (Request.set_sparse true) s = refl
after_request_keeps_len (Request.query_allocated_ranges range) s = refl

after_request_keeps_events :
    (r : Request) (s : Volume) → (after_request r s).open_events ≡ s.open_events
after_request_keeps_events (Request.set_sparse false) s = refl
after_request_keeps_events (Request.set_sparse true) s = refl
after_request_keeps_events (Request.query_allocated_ranges range) s = refl

volume_LengthLaws : LengthLaws events controls sys
volume_LengthLaws = record {
  length_of = λ f s. s.len;
  basic_keeps = λ f s. refl;
  standard_keeps = λ f s. refl;
  standard_reads = λ f s h. refl;
  metadata_keeps = λ f s. refl;
  metadata_reads = λ f s n h. ground arith;
  set_len_sets = λ f n s h. refl;
  allocation_keeps = λ f n s h. ground arith;
  controls_keep = λ f. record {
    create_keeps = λ s. refl;
    close_keeps = λ h s. refl;
    control_keeps = λ f r o s. after_request_keeps_len r s;
    wait_keeps = λ f o n s. refl;
  };
}

event_EventLaws : EventLaws events
event_EventLaws = record {
  open_events = λ s. s.open_events;
  create_opens = λ s h. refl;
  create_fails = λ s h. ground arith;
  close_closes = λ h s rest e. ground arith;
}

controls-ControlsKeepEvents : ControlsKeepEvents events event_EventLaws controls
unfolding event_EventLaws
controls-ControlsKeepEvents = record {
  control_keeps = λ f r o s. after_request_keeps_events r s;
  wait_keeps = λ f o n s. refl;
}

sparse_allocated : (allocate attributes constants events controls sys 3 4096 sparse).0 ≡ ok tt
unfolding allocate allocate_with_attributes_result file_attributes_and_state
    allocate_with_attributes allocate_sparse_space extend_file_length reserve_sparse_range
    reserve_sparse_range_with requested_range_is_allocated overlapped_device_io_control new
    submit_device_control clear_sparse_file set_sparse_file
sparse_allocated = refl

allocate_exact_example :
    (allocate attributes constants events controls sys 3 4096 sparse).1.len ≡ 4096
unfolding volume_LengthLaws
allocate_exact_example =
    allocate_exact attributes constants events controls sys volume_LengthLaws 3 4096 sparse
      sparse_allocated

control_balance_example :
    event_EventLaws.open_events
      (overlapped_device_io_control constants events controls 3 (Request.set_sparse false) sparse).1
    ≡ 12 ∷ []
unfolding event_EventLaws
control_balance_example =
    control_balance constants events controls event_EventLaws controls-ControlsKeepEvents 3
      (Request.set_sparse false) sparse

-- A range that is unbacked until the flag has been cleared.
abbrev query : Io Bool Bool
query s = (ok s, s)

abbrev clear : Io Bool (Unit {0})
clear s = (ok tt, true)

abbrev restore : Io Bool (Unit {0})
restore s = (ok tt, s)

reserve_sparse_range_iff_example : (reserve_sparse_range_with query clear restore false).0 ≡ ok tt
reserve_sparse_range_iff_example =
    (reserve_sparse_range_iff query clear restore false).1 (inr (refl, refl, refl, refl))
