-- ===== src/Grid/Extent.antt =====
-- `parseExtent`, `pointCount`, `cellDimensions` and `cellCount` of
-- frontend/src/lib/structuredGrid.ts. What `Number` makes of an attribute's words is the input:
-- an integer, or another value (NaN, an infinity, a fraction).
pub mod Laws
use my_paraview_web.Common.{
  ℕ, suc, ◌+◌, ◌-◌, ◌*◌, ◌≤◌, ◌<◌, ◌≡◌, refl, Bool, true, false, ◌||◌, ◌&&◌, not, Option, none,
  some, List, [], ◌∷◌, arith, ltb, leb, if◌then◌else◌, any,
}
use my_paraview_web.Common.Int.{ℤ, pos, negsuc, pos_part, neg_part, ltb_ℤ, ◌≤ℤ◌}

pub data JsNumber : Type 0 where
  integer : ℤ → JsNumber
  other : JsNumber

-- `Number.MAX_SAFE_INTEGER`
abbrev pub max_safe_integer : ℕ
max_safe_integer = 9007199254740991

abbrev pub is_safe_integer : JsNumber → Bool
is_safe_integer (integer z) = leb (pos_part z) max_safe_integer && leb (neg_part z) max_safe_integer
is_safe_integer other = false

pub record Dimensions : Type 0 where
  pub nx : ℕ
  pub ny : ℕ
  pub nz : ℕ

-- `extent[1] - extent[0] + 1`, for a range that is not reversed
abbrev pub extent_size : ℤ → ℤ → ℕ
extent_size lo hi = pos_part hi + neg_part lo - (pos_part lo + neg_part hi) + 1

-- `raw[1] < raw[0] || raw[3] < raw[2] || raw[5] < raw[4]`
unfoldable pub is_reversed : ℤ → ℤ → ℤ → ℤ → ℤ → ℤ → Bool
is_reversed x0 x1 y0 y1 z0 z1 = ltb_ℤ x1 x0 || ltb_ℤ y1 y0 || ltb_ℤ z1 z0

-- `raw.some((value) => !Number.isSafeInteger(value))`
unfoldable pub has_unsafe : List JsNumber → Bool
has_unsafe raw = any (λ value. not (is_safe_integer value)) raw

-- `none` is the error "Piece has an invalid Extent". An `other` value is never a safe integer.
unfoldable pub parse_extent : List JsNumber → Option Dimensions
parse_extent (integer x0 ∷ integer x1 ∷ integer y0 ∷ integer y1 ∷ integer z0 ∷ integer z1 ∷ []) =
    if has_unsafe (integer x0 ∷ integer x1 ∷ integer y0 ∷ integer y1 ∷ integer z0 ∷ integer z1 ∷ [])
      || is_reversed x0 x1 y0 y1 z0 z1
    then none
    else some (record { nx = extent_size x0 x1; ny = extent_size y0 y1; nz = extent_size z0 z1 })
parse_extent _ = none

abbrev pub point_count : Dimensions → ℕ
point_count d = d.nx * d.ny * d.nz

-- `Math.max(dimension - 1, 1)`
abbrev pub cell_size : ℕ → ℕ
cell_size n = if leb (n - 1) 1 then 1 else n - 1

abbrev pub cell_dimensions : Dimensions → Dimensions
cell_dimensions d = record { nx = cell_size d.nx; ny = cell_size d.ny; nz = cell_size d.nz }

abbrev pub cell_count : Dimensions → ℕ
cell_count d = point_count (cell_dimensions d)

-- The dimensions that `parse_extent` returns.
pub record IsGrid (d : Dimensions) : Type 0 where
  pub x_pos : 0 < d.nx
  pub y_pos : 0 < d.ny
  pub z_pos : 0 < d.nz
