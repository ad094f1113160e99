-- ===== src/Grid/Extent/Laws.antt =====
-- Theorems on `parseExtent` of frontend/src/lib/structuredGrid.ts.
use my_paraview_web.Common.{ℕ, ◌≤◌, ◌<◌, ◌≡◌, false, some, List, [], ◌∷◌, arith}
use my_paraview_web.Common.Int.{ℤ, pos, pos_part, neg_part, ◌≤ℤ◌, ◌+ℤ◌}
use my_paraview_web.Grid.Extent.{
  JsNumber, integer, max_safe_integer, is_reversed, has_unsafe, Dimensions, IsGrid, extent_size,
  parse_extent,
}

-- The inclusive range from `lo` to `hi` has `n` numbers, of which there is one at least.
abbrev pub Spans : ℤ → ℤ → ℕ → Type 0
Spans lo hi n = (0 < n) × (lo +ℤ pos n ≡ hi +ℤ pos 1)

abbrev pub IsSafe : ℤ → Type 0
IsSafe a = (pos_part a ≤ max_safe_integer) × (neg_part a ≤ max_safe_integer)

extent_size-Spans : (lo hi : ℤ) → lo ≤ℤ hi → Spans lo hi (extent_size lo hi)
unfolding ◌+ℤ◌
extent_size-Spans lo hi h = (omega arith, ground arith)

module _ (x0 x1 y0 y1 z0 z1 : ℤ) where
  abbrev words : List JsNumber
  words = integer x0 ∷ integer x1 ∷ integer y0 ∷ integer y1 ∷ integer z0 ∷ integer z1 ∷ []

  -- Six safe integers that form three ranges, none reversed, are accepted, and each dimension is
  -- the number of points in its range.
  pub parse_extent_accepts :
      IsSafe x0
      → IsSafe x1
      → IsSafe y0
      → IsSafe y1
      → IsSafe z0
      → IsSafe z1
      → x0 ≤ℤ x1
      → y0 ≤ℤ y1
      → z0 ≤ℤ z1
      → (d : Dimensions) × (parse_extent words ≡ some d)
        × Spans x0 x1 d.nx
        × Spans y0 y1 d.ny
        × Spans z0 z1 d.nz
  unfolding parse_extent is_reversed has_unsafe
  parse_extent_accepts sx0 sx1 sy0 sy1 sz0 sz1 hx hy hz = (
    record { nx = extent_size x0 x1; ny = extent_size y0 y1; nz = extent_size z0 z1 },
    ground arith,
    extent_size-Spans x0 x1 hx,
    extent_size-Spans y0 y1 hy,
    extent_size-Spans z0 z1 hz,
  )

  ordered_of_not_reversed :
      is_reversed x0 x1 y0 y1 z0 z1 ≡ false → (x0 ≤ℤ x1) × (y0 ≤ℤ y1) × (z0 ≤ℤ z1)
  unfolding is_reversed
  ordered_of_not_reversed h = (ground arith, ground arith, ground arith)

  parse_extent_integers :
      (d : Dimensions)
      → parse_extent words ≡ some d
      → IsGrid d × ((x0 ≤ℤ x1) × (y0 ≤ℤ y1) × (z0 ≤ℤ z1))
  unfolding parse_extent
  parse_extent_integers d h = (ground arith, ordered_of_not_reversed (ground arith))

-- Whatever words the attribute holds, the dimensions that are accepted are all positive.
pub parse_extent-IsGrid :
    (raw : List JsNumber) (d : Dimensions) → parse_extent raw ≡ some d → IsGrid d
unfolding parse_extent
parse_extent-IsGrid
      (integer x0 ∷ integer x1 ∷ integer y0 ∷ integer y1 ∷ integer z0 ∷ integer z1 ∷ []) d h =
    (parse_extent_integers x0 x1 y0 y1 z0 z1 d h).0
parse_extent-IsGrid _ d h = cc
