-- ===== src/Slice.antt =====
-- `wholeExtentFor` and `sliceRangeFor` of frontend/src/lib/slice.ts, and `comparisonSliceIndex`,
-- `clampComparisonTimestep` and `nextComparisonTimestep` of frontend/src/lib/comparison.ts.
-- Extents and indices are integers; a dataset is given by the parts of it that are read.
pub mod Bounds
mod Tests
use my_paraview_web.Common.{
  ℕ, ◌+◌, ◌-◌, ◌≡◌, Bool, true, false, not, ◌||◌, Option, none, some, List, [], ◌∷◌, get_elem?,
  length, ltb, if◌then◌else◌,
}
use my_paraview_web.Common.Int.{ℤ, pos, negsuc, max_ℤ, min_ℤ, pred_ℤ}
use my_paraview_web.Display.Snapshot.{SliceAxis, axis_x, axis_y, axis_z}

-- `SLICE_EXTENT_OFFSET`
abbrev pub slice_extent_offset : SliceAxis → ℕ
slice_extent_offset axis_x = 0
slice_extent_offset axis_y = 2
slice_extent_offset axis_z = 4

-- `values[i] ?? fallback`
abbrev pub at_or : Option ℤ → ℤ → ℤ
at_or none fallback = fallback
at_or (some v) fallback = v

-- `Math.max(0, (dimensions[i] ?? 1) - 1)`
abbrev pub last_of : Option ℤ → ℤ
last_of o = max_ℤ (pos 0) (pred_ℤ (at_or o (pos 1)))

pub whole_extent_for : List ℤ → Option (List ℤ) → List ℤ
whole_extent_for dimensions (some extent) = extent
whole_extent_for dimensions none =
    pos 0
    ∷ last_of (get_elem? dimensions 0)
    ∷ pos 0
    ∷ last_of (get_elem? dimensions 1)
    ∷ pos 0
    ∷ last_of (get_elem? dimensions 2)
    ∷ []

pub record SliceRange : Type 0 where
  pub min : ℤ
  pub max : ℤ

abbrev pub range_of : Option ℤ → Option ℤ → SliceRange
range_of low high =
    let min = at_or low (pos 0) in record { min = min; max = max_ℤ min (at_or high min) }

pub slice_range_for : List ℤ → SliceAxis → SliceRange
slice_range_for extent axis =
    range_of (get_elem? extent (slice_extent_offset axis))
      (get_elem? extent (slice_extent_offset axis + 1))

-- `Math.max(min, Math.min(requested, max))`
abbrev pub clamp_to : SliceRange → ℤ → ℤ
clamp_to r requested = max_ℤ r.min (min_ℤ requested r.max)

-- `dimensions` and `whole_extent` of the dataset, where it has them
unfoldable pub comparison_slice_index : Option (List ℤ) → Option (List ℤ) → SliceAxis → ℤ → ℤ
unfolding slice_range_for whole_extent_for
comparison_slice_index none extent axis requested =
    clamp_to (slice_range_for (whole_extent_for (pos 1 ∷ pos 1 ∷ pos 1 ∷ []) extent) axis) requested
comparison_slice_index (some dimensions) extent axis requested =
    clamp_to (slice_range_for (whole_extent_for dimensions extent) axis) requested

-- `dataset?.timesteps?.length ?? 1`, less one
abbrev pub last_timestep : Option ℕ → ℕ
last_timestep none = 0
last_timestep (some n) = n - 1

-- At the number of timesteps, where the dataset has them, and an integer.
unfoldable pub clamp_comparison_timestep : Option ℕ → ℤ → ℕ
clamp_comparison_timestep count (negsuc n) = 0
clamp_comparison_timestep count (pos n) =
    if ltb (last_timestep count) n then last_timestep count else n

-- `dataset.timesteps?.length ?? 0`
abbrev pub timesteps_of : Option ℕ → ℕ
timesteps_of none = 0
timesteps_of (some n) = n

unfoldable pub next_comparison_timestep : Bool → Option ℕ → ℤ → ℕ
unfolding clamp_comparison_timestep
next_comparison_timestep is_collection count primary =
    let current = clamp_comparison_timestep count primary in
    if not is_collection || ltb (timesteps_of count) 2
    then 0
    else if ltb (current + 1) (timesteps_of count)
    then current + 1
    else current - 1
