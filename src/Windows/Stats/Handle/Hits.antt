-- ===== src/Windows/Stats/Handle/Hits.antt =====
-- What a query by handle answers, when it answers.
use fs2_turbo.Base.{
  ℕ, pos, pos_part, ◌*◌, ◌≤◌, ◌<◌, ◌≡◌, ◌↔◌, Option, some, none, u32_mod, u64_max, arith,
}
use fs2_turbo.Stats.Snapshot.{SpaceKind}
use fs2_turbo.Windows.Stats.Modern.Exact.{scale_le, u32_product}
use fs2_turbo.Windows.Stats.Handle.{DirectSpace, FullSizeInformation, handle_space_from_info}

abbrev pub IsU32 : FullSizeInformation → Type 0
IsU32 info = (info.sectors_per_allocation_unit < u32_mod) × (info.bytes_per_sector < u32_mod)

abbrev pub granularity : FullSizeInformation → ℕ
granularity info = info.sectors_per_allocation_unit * info.bytes_per_sector

-- The bytes of a kind of space; a total is never answered by a handle.
abbrev pub bytes_of : FullSizeInformation → SpaceKind → Option ℕ
bytes_of info SpaceKind.free = some (granularity info * pos_part info.actual_available_units)
bytes_of info SpaceKind.available = some (granularity info * pos_part info.caller_available_units)
bytes_of info SpaceKind.allocation_granularity = some (granularity info)
bytes_of info SpaceKind.total = none

-- Counts that are not negative, that are consistent, and whose bytes fit.
abbrev pub IsConsistent : FullSizeInformation → Type 0
IsConsistent info =
    (actual : ℕ) × (caller : ℕ) × (total : ℕ) × (info.actual_available_units ≡ pos actual)
    × (info.caller_available_units ≡ pos caller)
    × (info.total_units ≡ pos total)
    × (caller ≤ total)
    × (caller ≤ actual)
    × (0 < granularity info)
    × (granularity info * actual ≤ u64_max)

handle_space-IsConsistent :
    (info : FullSizeInformation) (kind : SpaceKind) {v : ℕ}
    → IsU32 info
    → handle_space_from_info info kind ≡ DirectSpace.hit v
    → IsConsistent info × (bytes_of info kind ≡ some v)
unfolding handle_space_from_info
handle_space-IsConsistent info kind {v} u h =
    let small = u32_product info.sectors_per_allocation_unit info.bytes_per_sector u.0 u.1 in
    let actual : ℕ = pos_part info.actual_available_units in
    let caller : ℕ = pos_part info.caller_available_units in
    let total : ℕ = pos_part info.total_units in
    (
      (
        actual,
        caller,
        total,
        ground arith,
        ground arith,
        ground arith,
        ground arith,
        ground arith,
        ground (arith, small),
        ground (arith, small),
      ),
      ground (arith, small),
    )

-- With its two 32-bit fields in range, a query by handle answers a value exactly when no count is
-- negative, the caller's units exceed neither the total nor the free units, the granularity is not
-- zero and the free bytes fit a `u64`; the value is then the exact bytes of the kind asked for,
-- and a total is never answered.
pub handle_space_from_info_iff :
    (info : FullSizeInformation) (kind : SpaceKind) (v : ℕ)
    → IsU32 info
    → (handle_space_from_info info kind ≡ DirectSpace.hit v)
      ↔ (IsConsistent info × (bytes_of info kind ≡ some v))
unfolding handle_space_from_info
handle_space_from_info_iff info kind v u =
    let small = u32_product info.sectors_per_allocation_unit info.bytes_per_sector u.0 u.1 in
    (
      λ h. handle_space-IsConsistent info kind u h,
      λ h. ground (arith, small, scale_le (granularity info) h.0.1 h.0.0),
    )
