-- ===== src/Examples/Volumes.antt =====
-- A Windows volume C: of 1000 units of 4096 bytes, and its providers.
use fs2_turbo.Base.{ℕ, pos, negsuc, ◌+◌, ◌≡◌, refl, true, List, [], ◌∷◌, ok, some, map_ok, arith}
use fs2_turbo.Stats.Snapshot.{SpaceKind, getter}
use fs2_turbo.Stats.Query
use fs2_turbo.Stats.Windows.{
  FilesystemCounters, windows_modern_bytes, windows_legacy_bytes, into_stats,
}
use fs2_turbo.Stats.Windows.Laws.{stats_of}
use fs2_turbo.Windows.Path.{Call}
use fs2_turbo.Windows.Stats.Provider.{ProviderOutcome}
use fs2_turbo.Windows.Stats.Legacy.{
  LegacySys, legacy_statvfs, legacy_space, cluster_geometry, byte_space,
}
use fs2_turbo.Windows.Stats.Legacy.Agree.{legacy_space-legacy_statvfs}
use fs2_turbo.Windows.Stats.Modern.{
  DiskSpaceInformation, counters_from_disk_space_information, modern_statvfs_with,
}
use fs2_turbo.Windows.Stats.Modern.Exact.{modern_accepted}
use fs2_turbo.Windows.Stats.Handle.{FullSizeInformation}
use fs2_turbo.Windows.Stats.Space.{SpaceSys, modern_statvfs}
use fs2_turbo.Windows.Stats.Space.Query.{windows_stats_sys}
use fs2_turbo.Windows.Stats.Space.Routes.{total_space-statvfs}

abbrev information : DiskSpaceInformation
information = record {
  actual_total = 1000;
  actual_available = 500;
  caller_total = 900;
  caller_available = 400;
  sectors_per_allocation_unit = 8;
  bytes_per_sector = 512;
}

abbrev counters : FilesystemCounters
counters = windows_modern_bytes 4096 2048000 1638400 4096000

information_converts : counters_from_disk_space_information information ≡ ok counters
unfolding counters_from_disk_space_information
information_converts = refl

modern_accepted_example : into_stats counters ≡ ok (stats_of counters)
modern_accepted_example =
    (modern_accepted information counters (omega arith, omega arith) information_converts).1
      (omega arith, omega arith)

abbrev done : Call
done = record { result = pos 1; last_error = pos 0 }

-- The state counts the calls.
abbrev legacy : LegacySys ℕ
legacy = record {
  get_disk_free_space =
      λ path n. (record { call = done; sectors_per_cluster = 8; bytes_per_sector = 512 }, n + 1);
  get_disk_free_space_ex = λ path n. (
    record {
      call = done;
      caller_available = 1638400;
      caller_total = 3686400;
      actual_free = 2048000;
    },
    n + 1,
  );
}

abbrev legacy_counters : FilesystemCounters
legacy_counters = windows_legacy_bytes 4096 2048000 1638400 3686400

abbrev root : List ℕ
root = b'C' ∷ b':' ∷ b'\\' ∷ 0 ∷ []

legacy_answers : (legacy_statvfs legacy root 0).0 ≡ ok legacy_counters
unfolding legacy_statvfs cluster_geometry byte_space
legacy_answers = refl

legacy_space-legacy_statvfs_example : (legacy_space legacy root SpaceKind.total 7).0 ≡ ok 3686400
legacy_space-legacy_statvfs_example =
    legacy_space-legacy_statvfs legacy root SpaceKind.total 0 7 refl refl legacy_answers

abbrev full_size : FullSizeInformation
full_size = record {
  total_units = pos 1000;
  caller_available_units = pos 400;
  actual_available_units = pos 500;
  sectors_per_allocation_unit = 8;
  bytes_per_sector = 512;
}

abbrev windows : SpaceSys ℕ (List ℕ) ℕ
windows = record {
  legacy = legacy;
  handle = record {
    get_file_attributes = λ path n. (0x10, n + 1);
    is_absolute = λ path. true;
    open_handle = λ path n. (some 3, n + 1);
    query_volume = λ handle n. ((pos 0, full_size), n + 1);
    close_handle = λ handle n. n + 1;
  };
  encode_wide = λ path. path;
  get_volume_path_name = λ path buffer n. ((done, root), n + 1);
  provider = some (λ path n. ((pos 0, information), n + 1));
  nt_status_to_dos_error = λ status. 0;
  hresults = record {
    s_ok = pos 0;
    e_notimpl = negsuc 0x7fff_bffe;
    error_call_not_implemented = 120;
    error_invalid_function = 1;
    error_not_supported = 50;
  };
  attributes = record {
    invalid_file_attributes = 0xffff_ffff;
    device = 0x40;
    offline = 0x1000;
    recall_on_data_access = 0x40_0000;
    recall_on_open = 0x4_0000;
    reparse_point = 0x400;
    directory = 0x10;
  };
  resolution = record {
    bad_netpath = pos 53;
    bad_pathname = pos 161;
    directory = pos 267;
    invalid_drive = pos 15;
    invalid_name = pos 123;
    invalid_parameter = pos 87;
    path_not_found = pos 3;
  };
}

provider_answers :
    (path : List ℕ) (n : ℕ)
    → (c : FilesystemCounters) × ((modern_statvfs windows path n).0 ≡ ok (ProviderOutcome.value c))
unfolding modern_statvfs modern_statvfs_with counters_from_disk_space_information
provider_answers path n = (counters, refl)

abbrev path : List ℕ
path = b'C' ∷ b':' ∷ b'\\' ∷ b'x' ∷ []

total_space-statvfs_example : Query.total_space (windows_stats_sys windows) path 0 ≡ (
    let (r, s') = Query.statvfs (windows_stats_sys windows) path 0 in
    (map_ok (getter SpaceKind.total) r, s'))
total_space-statvfs_example = total_space-statvfs windows provider_answers path 0
