-- ===== src/Windows/Stats/Modern/Exact.antt =====
-- The units of the modern provider become exact byte counts, and validation then refuses only a
-- zero granularity or more space for the caller than there is.
use fs2_turbo.Base.{ℕ, ◌+◌, ◌*◌, ◌≤◌, ◌<◌, ◌≡◌, ◌↔◌, ok, u32_mod, u64_max, arith}
use native.Mathlib.Nat.{le_trans}
use native.Mathlib.Decide.{dec_le}
use fs2_turbo.Stats.Windows.{FilesystemCounters, WindowsCounterSource, into_stats}
use fs2_turbo.Stats.Windows.Laws.{stats_of, windows_into_stats-iff_IsSane}
use fs2_turbo.Windows.Stats.Modern.{DiskSpaceInformation, counters_from_disk_space_information}

-- The two fields that are 32 bits wide.
abbrev pub IsU32 : DiskSpaceInformation → Type 0
IsU32 info = (info.sectors_per_allocation_unit < u32_mod) × (info.bytes_per_sector < u32_mod)

abbrev pub granularity : DiskSpaceInformation → ℕ
granularity info = info.sectors_per_allocation_unit * info.bytes_per_sector

pub scale_le : (g a b : ℕ) → a ≤ b → g * a ≤ g * b
scale_le g a b h = grind arith

pub u32_product : (a b : ℕ) → a < u32_mod → b < u32_mod → a * b ≤ 0xffff_fffe_0000_0001
u32_product a b h k =
    le_trans (scale_le a b 0xffff_ffff (omega arith))
      (omega (arith, scale_le 0xffff_ffff a 0xffff_ffff (omega arith)))

-- The exact counters of consistent units.
abbrev pub Converts : DiskSpaceInformation → FilesystemCounters → Type 0
Converts info c =
    (info.caller_available ≤ info.caller_total)
    × (info.actual_available ≤ info.actual_total)
    × (granularity info * info.actual_total ≤ u64_max)
    × (granularity info * info.caller_available ≤ u64_max)
    × (c.allocation_granularity ≡ granularity info)
    × (c.free_space ≡ granularity info * info.actual_available)
    × (c.available_space ≡ granularity info * info.caller_available)
    × (c.total_space ≡ granularity info * info.actual_total)
    × (c.source ≡ WindowsCounterSource.modern)

-- With the two 32-bit fields in range, the modern structure converts exactly when available does
-- not exceed total in the caller's and in the volume's units and the byte products fit a `u64`,
-- and each counter is then its exact product.
pub counters-iff_Converts :
    (info : DiskSpaceInformation) (c : FilesystemCounters)
    → IsU32 info
    → (counters_from_disk_space_information info ≡ ok c) ↔ Converts info c
unfolding counters_from_disk_space_information
counters-iff_Converts info c u =
    let small = u32_product info.sectors_per_allocation_unit info.bytes_per_sector u.0 u.1 in
    (
      λ h. ground (arith, small),
      λ h.
          ground
            (arith, small, scale_le (granularity info) info.actual_available info.actual_total),
    )

unscale_le : (g a b : ℕ) → 0 < g → g * a ≤ g * b → a ≤ b
unscale_le g a b p h = elim (dec_le a b) [
  | yes fits ↦ fits
  | no over ↦ absurd (omega (arith, scale_le g (b + 1) a (omega arith)))
]

-- Counters that the modern provider's structure was converted to, with its two 32-bit fields in
-- range, pass the later validation exactly when the granularity is not zero and the caller's
-- available units do not exceed the free units of the volume.
pub modern_accepted :
    (info : DiskSpaceInformation) (c : FilesystemCounters)
    → IsU32 info
    → counters_from_disk_space_information info ≡ ok c
    → (into_stats c ≡ ok (stats_of c))
      ↔ ((0 < granularity info) × (info.caller_available ≤ info.actual_available))
modern_accepted info c u h =
    let converts = (counters-iff_Converts info c u).0 h in
    let sane = windows_into_stats-iff_IsSane c (stats_of c) in
    let units = unscale_le (granularity info) info.caller_available info.actual_available in
    let bytes = scale_le (granularity info) info.caller_available info.actual_available in
    let total = scale_le (granularity info) info.actual_available info.actual_total in
    (λ e. ground (arith, sane, units), λ e. ground (arith, sane, bytes, total))
