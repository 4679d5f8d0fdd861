-- ===== src/Examples/Contention.antt =====
-- A Windows system on which another handle holds the lock of every file. The state counts the calls.
use fs2_turbo.Base.{ℕ, pos, ◌+◌, ◌≡◌, refl, ok, err, arith}
use fs2_turbo.FileExt.{file_ext, lock_contended_error}
use fs2_turbo.Windows.Path.{Call}
use fs2_turbo.Windows.Overlapped.{PrivateOverlapped, new}
use fs2_turbo.Windows.File.{FileApi, windows_file_sys}
use fs2_turbo.Windows.File.Contended.{try_lock_contended}

abbrev done : Call
done = record { result = pos 1; last_error = pos 0 }

abbrev refused : Call
refused = record { result = pos 0; last_error = pos 33 }

abbrev api : FileApi ℕ
api = record {
  flags = record {
    lockfile_exclusive_lock = 2;
    lockfile_fail_immediately = 1;
    error_io_pending = pos 997;
    error_lock_violation = pos 33;
  };
  attributes = record {
    offline = 0x1000;
    recall_on_data_access = 0x40_0000;
    recall_on_open = 0x4_0000;
    compressed = 0x800;
    sparse_file = 0x200;
  };
  control_constants = record {
    error_io_pending = pos 997;
    error_more_data = pos 234;
    error_invalid_function = pos 1;
    error_invalid_parameter = pos 87;
    error_not_supported = pos 50;
    size_of_range = 16;
  };
  events = record { create_event = λ n. ((68, pos 0), n + 1); close_handle = λ h n. n + 1 };
  locks = record {
    lock_file = λ f n. (refused, n + 1);
    lock_file_ex = λ f flags o n. (refused, n + 1);
    get_overlapped_result = λ f o n. (done, n + 1);
    unlock_file = λ f n. (done, n + 1);
  };
  controls = record {
    device_io_control = λ f r o n. (
      record { call = refused; returned = 0; range = record { file_offset = pos 0; len = pos 0 } },
      n + 1,
    );
    get_overlapped_result = λ f o k n. (
      record { call = refused; returned = 0; range = record { file_offset = pos 0; len = pos 0 } },
      n + 1,
    );
  };
  files = record {
    standard_info =
        λ f n. (record { call = done; allocation_size = pos 0; end_of_file = pos 0 }, n + 1);
    basic_info = λ f n. ((done, 0x20), n + 1);
    set_allocation = λ f k n. (done, n + 1);
    metadata_len = λ f n. (ok 0, n + 1);
    set_len = λ f k n. (ok tt, n + 1);
  };
  duplicate_handle = λ f n. ((done, 72), n + 1);
}

abbrev overlapped : PrivateOverlapped
overlapped = record { h_event = 69; event = 68 }

event_created : (new api.events 0).0 ≡ ok overlapped
unfolding new
event_created = refl

try_lock_contended_example :
    ((file_ext (windows_file_sys api)).required.try_lock_exclusive 3 0).0
    ≡ err (lock_contended_error (windows_file_sys api))
try_lock_contended_example =
    (try_lock_contended api 3 0 (ground arith) (refl, refl) event_created (refl, refl)).0
