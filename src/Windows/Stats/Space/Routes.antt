-- ===== src/Windows/Stats/Space/Routes.antt =====
-- Where the modern provider answers, the scalar total is the snapshot's.
use fs2_turbo.Base.{
  ℕ, ◌>>=◌, List, [], ◌∷◌, ◌++◌, ◌≡◌, false, ok, err, map_ok, if◌then◌else◌, arith, none,
  Option-cases, Bool-cases, Result-cases, inl, inr,
}
use fs2_turbo.Base.Buffer.{contains_null, null_error}
use fs2_turbo.Base.Io
use fs2_turbo.Stats.Snapshot.{SpaceKind, getter}
use fs2_turbo.Stats.Query
use fs2_turbo.Stats.Windows.Laws.{windows_space-raw_os_error, windows_space-into_stats}
use fs2_turbo.Stats.Windows.{FilesystemCounters, space as counters_space}
use fs2_turbo.Windows.Path.{copy_exact_drive_root, volume_path}
use fs2_turbo.Windows.Path.Wide.{with_wide_path_lem}
use fs2_turbo.Windows.Stats.Provider.{ProviderOutcome}
use fs2_turbo.Windows.Stats.Handle.{direct_space, handle_space}
use fs2_turbo.Windows.Stats.Space.{
  SpaceSys, zero_root, space, space_with_wide_path, space_after_narrow_queries, modern_statvfs,
  root_space, root_space_with, statvfs_root, statvfs_root_with, exact_root_space,
  space_after_exact_root, after_exact_root, volume_space, or_volume_space,
}
use fs2_turbo.Windows.Stats.Space.Roots.{exact_root_space_from_path_lem}
use fs2_turbo.Windows.Stats.Space.Query.{
  new, statvfs, exact_or_volume, counters, stats_query_from_wide_path, windows_stats_sys,
}

module _ {S P H : Type 0} (sys : SpaceSys S P H) where
  -- A total is never answered by a narrow query, and none is made for it.
  pub total_skips_narrow :
      (path : P) (s : S)
      → space sys path SpaceKind.total s ≡ (
          if contains_null (sys.encode_wide path)
          then (err null_error, s)
          else space_after_narrow_queries sys (sys.encode_wide path ++ 0 ∷ []) SpaceKind.total s)
  unfolding space space_with_wide_path direct_space handle_space
  total_skips_narrow path s = ground (
    arith,
    with_wide_path_lem (sys.encode_wide path)
        (λ path_utf16. space_with_wide_path sys path_utf16 path SpaceKind.total) s,
  )

module _ {S P H : Type 0} (sys : SpaceSys S P H)
    -- The modern provider is there, and answers with counters.
    (answers : (root : List ℕ) (s : S)
      → (c : FilesystemCounters) × ((modern_statvfs sys root s).0
          ≡ ok (ProviderOutcome.value c))) where
  root_space-statvfs_root :
      (root : List ℕ) (kind : SpaceKind) (s : S)
      → root_space sys root kind s ≡ (
          let (c, s') = statvfs_root sys root s in
          (c >>= (λ counters. counters_space counters kind), s'))
  unfolding root_space root_space_with statvfs_root statvfs_root_with
  root_space-statvfs_root root kind s = ground (arith, (answers root s).1)

  -- No error of validation is a volume that could not be resolved.
  exact_root_space-root_space :
      (path : List ℕ) (kind : SpaceKind) (root : List ℕ) (s : S)
      → exact_root_space sys path kind root s ≡ root_space sys root kind s
  unfolding exact_root_space space_after_exact_root after_exact_root root_space root_space_with
  exact_root_space-root_space path kind root s =
      let (c, e) = answers root s in
      elim (Result-cases (counters_space c kind)) [
        | inl (v, good) ↦ ground (arith, e, good)
        | inr (x, bad) ↦ ground (arith, e, bad, windows_space-raw_os_error c kind bad)
      ]

  volume_space-statvfs_root :
      (path : List ℕ) (kind : SpaceKind) (s : S)
      → volume_space sys path kind s ≡ (
          let (c, s') = Io.◌>>=◌ (exact_or_volume sys path none) (counters sys) s in
          (c >>= (λ found. counters_space found kind), s'))
  unfolding volume_space exact_or_volume counters
  volume_space-statvfs_root path kind s =
      elim (Result-cases (volume_path sys.get_volume_path_name path zero_root s).0) [
        | inl (root, e) ↦ ground (
          arith,
          root_space-statvfs_root root kind
              (volume_path sys.get_volume_path_name path zero_root s).1,
        )
        | inr (x, e) ↦ ground arith
      ]

  narrow-statvfs :
      (units : List ℕ) (kind : SpaceKind) (s : S)
      → contains_null units ≡ false
      → space_after_narrow_queries sys (units ++ 0 ∷ []) kind s ≡ (
          let (c, s') =
            Io.◌>>=◌ (stats_query_from_wide_path sys (units ++ 0 ∷ [])) (counters sys) s in
          (c >>= (λ found. counters_space found kind), s'))
  unfolding space_after_narrow_queries or_volume_space stats_query_from_wide_path exact_or_volume
      counters
  narrow-statvfs units kind s clean =
      let path : List ℕ = units ++ 0 ∷ [] in
      rw (exact_root_space_from_path_lem sys units kind clean)
        (elim (Option-cases (copy_exact_drive_root path zero_root)) [
          | inl absent ↦ rw absent (volume_space-statvfs_root path kind s)
          | inr (root, e) ↦
              rw (e, exact_root_space-root_space path kind root s)
                (root_space-statvfs_root root kind s)
        ])

  -- Where the modern provider answers every root with counters, the scalar total space of a path
  -- and the total of the path's snapshot are the same result, errors included, and leave the
  -- system in the same state.
  pub total_space-statvfs :
      (path : P) (s : S)
      → Query.total_space (windows_stats_sys sys) path s ≡ (
          let (r, s') = Query.statvfs (windows_stats_sys sys) path s in
          (map_ok (getter SpaceKind.total) r, s'))
  unfolding Query.total_space Query.statvfs windows_stats_sys statvfs new
  total_space-statvfs path s =
      let units : List ℕ = sys.encode_wide path in
      let narrow = total_skips_narrow sys path s in
      let wide = with_wide_path_lem units (stats_query_from_wide_path sys) s in
      let found = Io.◌>>=◌ (stats_query_from_wide_path sys (units ++ 0 ∷ [])) (counters sys) s in
      elim (Bool-cases (contains_null units)) [
        | inl null ↦ ground (arith, narrow, wide, null)
        | inr clean ↦ elim (Result-cases found.0) [
          | inl (c, e) ↦ ground (
            arith,
            narrow,
            wide,
            narrow-statvfs units SpaceKind.total s clean,
            windows_space-into_stats c SpaceKind.total,
          )
          | inr (x, e) ↦ ground (arith, narrow, wide, narrow-statvfs units SpaceKind.total s clean)
        ]
      ]
