-- ===== src/View/Fields.antt =====
-- The readers of the fields of a stored view, frontend/src/lib/viewState.ts, in the order of
-- parseViewState. A reader returns `none` where the code returns null.
use my_paraview_web.Common.{
  ℕ, Bool, false, not, ◌&&◌, ◌||◌, Option, none, some, List, [], ◌∷◌, all, length, ltb, ◌==◌,
  if◌then◌else◌,
}
use my_paraview_web.Common.Eq.{Text, codes, ◌===◌, Units_eq}
use my_paraview_web.Common.Int.{ℤ, pos, negsuc, max_ℤ, min_ℤ}
use my_paraview_web.Json.{
  Value, undefined, null, JsNumbers, property, is_object, text_of, boolean_of, number_of, array_of,
}
use my_paraview_web.Json.Steps.{◌>>=◌, ◌>>◌, refuse_if, each}
use my_paraview_web.ColorMap.{between}
use my_paraview_web.Display.Snapshot.{
  Representation, surface, surface_with_edges, wireframe, points, ScalarAssociation, point, cell,
  ScalarSelection, TableCoordinates, ImageMode, slice, volume, SliceAxis, axis_x, axis_y, axis_z,
  DisplayStyle, CameraState, VolumeOpacityPoint,
}

-- `/^#[0-9a-f]{6}$/i`
abbrev pub is_hex_digit : ℕ → Bool
is_hex_digit c = between b'0' b'9' c || (between b'a' b'f' c || between b'A' b'F' c)

abbrev pub is_color : Text → Bool
is_color [] = false
is_color (c ∷ cs) = c == b'#' && (length cs == 6 && all is_hex_digit cs)

-- `REPRESENTATIONS.has(value)` and the representation of that name
unfoldable pub representation_named : Text → Option Representation
representation_named t =
    if t === codes "surface"
    then some surface
    else if t === codes "surface-with-edges"
    then some surface_with_edges
    else if t === codes "wireframe"
    then some wireframe
    else if t === codes "points"
    then some points
    else none

unfoldable pub association_named : Text → Option ScalarAssociation
association_named t =
    if t === codes "point" then some point else if t === codes "cell" then some cell else none

unfoldable pub image_mode_named : Text → Option ImageMode
image_mode_named t =
    if t === codes "slice" then some slice else if t === codes "volume" then some volume else none

unfoldable pub slice_axis_named : Text → Option SliceAxis
slice_axis_named t =
    if t === codes "X"
    then some axis_x
    else if t === codes "Y"
    then some axis_y
    else if t === codes "Z"
    then some axis_z
    else none

-- `new Set([x, y, z]).size !== 3`, negated
abbrev pub are_distinct : TableCoordinates → Bool
are_distinct c = not (c.x === c.y) && (not (c.x === c.z) && not (c.y === c.z))

-- A part that is left out where its value is `undefined`, or `null`.
abbrev pub optional {ℓ} :
    {N : Type 0} {A : Type ℓ} → (Value N → Option A) → Value N → Option (Option A)
optional read undefined = some none
optional read v = read v >>= λ a. some (some a)

abbrev pub nullable {ℓ} :
    {N : Type 0} {A : Type ℓ} → (Value N → Option A) → Value N → Option (Option A)
nullable read null = some none
nullable read v = read v >>= λ a. some (some a)

abbrev pub named {ℓ} : {N : Type 0} {A : Type ℓ} → (Text → Option A) → Value N → Option A
named from v = text_of v >>= from

-- `clampSliceIndex`
unfoldable pub clamp_slice_index : ℤ → ℤ → ℤ → ℤ
clamp_slice_index index minimum maximum = max_ℤ minimum (min_ℤ index maximum)

-- `(index as number) < 0` is refused
abbrev pub natural_of : ℤ → Option ℕ
natural_of (pos n) = some n
natural_of (negsuc n) = none

module _ {N : Type 0} where
  abbrev pub read_selection : Value N → Option ScalarSelection
  read_selection v = do
    refuse_if (not (is_object v))
    name ← text_of (property v "name")
    association ← named association_named (property v "association")
    some (record { name = name; association = association })

  abbrev pub pair_of : List N → Option (N × N)
  pair_of (a ∷ b ∷ []) = some (a, b)
  pair_of _ = none

  abbrev pub triple_of : List N → Option (N × N × N)
  triple_of (a ∷ b ∷ c ∷ []) = some (a, b, c)
  triple_of _ = none

  abbrev pub read_coordinates : Value N → Option TableCoordinates
  read_coordinates v = do
    refuse_if (not (is_object v))
    x ← text_of (property v "x")
    y ← text_of (property v "y")
    z ← text_of (property v "z")
    refuse_if (not (are_distinct (record { x = x; y = y; z = z })))
    some (record { x = x; y = y; z = z })

module _ {N : Type 0} (js : JsNumbers N) where
  abbrev pub finite_of : Value N → Option N
  finite_of v = number_of v >>= λ n. refuse_if (not (js.is_finite n)) >> some n

  -- `typeof v === "number" && Number.isFinite(v) && v >= low && v <= high`
  abbrev pub number_within : ℕ → ℕ → Value N → Option N
  number_within low high v = do
    n ← finite_of v
    refuse_if (js.less n (js.literal low) || js.less (js.literal high) n)
    some n

  abbrev pub color_of : Value N → Option Text
  color_of v = text_of v >>= λ t. refuse_if (not (is_color t)) >> some t

  abbrev pub read_style : Value N → Option (DisplayStyle N)
  read_style v = do
    refuse_if (not (is_object v))
    solid ← color_of (property v "solid_color")
    edge ← color_of (property v "edge_color")
    size ← number_within 1 30 (property v "point_size")
    width ← number_within 1 10 (property v "line_width")
    some (record { solid_color = solid; edge_color = edge; point_size = size; line_width = width })

  -- `finiteTuple`
  abbrev pub finite_items : Value N → Option (List N)
  finite_items v = array_of v >>= each finite_of

  abbrev pub read_range : Value N → Option (N × N)
  read_range v = do
    values ← finite_items v
    range ← pair_of values
    refuse_if (js.at_most range.1 range.0)
    some range

  abbrev pub read_vector : Value N → Option (N × N × N)
  read_vector v = finite_items v >>= triple_of

  abbrev pub read_camera : Value N → Option (CameraState N)
  read_camera v = do
    refuse_if (not (is_object v))
    position ← read_vector (property v "position")
    focal ← read_vector (property v "focal_point")
    up ← read_vector (property v "view_up")
    scale ← finite_of (property v "parallel_scale")
    refuse_if (js.at_most scale (js.literal 0))
    parallel ← optional boolean_of (property v "parallel_projection")
    some (record {
      position = position;
      focal_point = focal;
      view_up = up;
      parallel_scale = scale;
      parallel_projection = parallel;
    })

  abbrev pub integer_in : Value N → Option ℤ
  integer_in v = number_of v >>= js.integer_of

  abbrev pub in_unit : N → Bool
  in_unit n = js.at_most (js.literal 0) n && js.at_most n (js.literal 1)

  abbrev pub read_opacity_point : Value N → Option (VolumeOpacityPoint N)
  read_opacity_point v = do
    refuse_if (not (is_object v))
    value ← number_of (property v "value")
    alpha ← number_of (property v "alpha")
    refuse_if (not (in_unit value && in_unit alpha))
    some (record { value = value; alpha = alpha })

  abbrev pub read_opacity_points : Value N → Option (List (VolumeOpacityPoint N))
  read_opacity_points v = do
    values ← array_of v
    refuse_if (ltb (length values) 2 || ltb 4 (length values))
    each read_opacity_point values
