-- ===== src/View/Parser.antt =====
-- parseViewState of frontend/src/lib/viewState.ts, on the registry of color maps. An embedded color
-- map is registered last; the exception of a registration is the error of the result, and an inner
-- `none` is a registration that does not end.
pub mod Reading
pub mod Available
pub mod Safety
pub mod Source
pub mod RoundTrip
mod Tests
use my_paraview_web.Common.{ℕ, Bool, true, false, not, ◌||◌, Option, none, some, List, ◌==◌}
use my_paraview_web.Common.Eq.{Text, ◌===◌, Units_eq}
use my_paraview_web.Common.Result.{Result, ok, err}
use my_paraview_web.Json.{
  Value, undefined, null, JsNumbers, property, is_object, text_of, boolean_of, number_of,
}
use my_paraview_web.Json.Steps.{◌>>=◌, ◌>>◌, refuse_if}
use my_paraview_web.ColorMap.{Name, ColorMapError, CustomColorMap}
use my_paraview_web.ColorMap.Definition.{
  Maps, is_custom, has_color_map, custom_color_map_definition, definitions_equal, parse_definition,
}
use my_paraview_web.ColorMap.Registry.{register_custom_color_map}
use my_paraview_web.Common.Int.{ℤ}
use my_paraview_web.Display.Snapshot.{
  Representation, DisplayStyle, ScalarSelection, CameraState, TableCoordinates, ImageMode,
  SliceAxis, VolumeOpacityPoint,
}
use my_paraview_web.Display.History.{ViewState}
use my_paraview_web.View.Fields.{
  optional, nullable, named, representation_named, image_mode_named, slice_axis_named,
  number_within, read_style, read_selection, read_range, read_camera, read_coordinates, integer_in,
  natural_of, read_opacity_points,
}

module _ {N : Type 0} (js : JsNumbers N) where
  -- `undefined` and `null` are no definition.
  abbrev pub embedded_of : Value N → Option (Option (CustomColorMap N))
  embedded_of undefined = some none
  embedded_of null = some none
  embedded_of v = parse_definition js v >>= λ d. some (some d)

  -- `registered && !customColorMapDefinitionsEqual(registered, embedded)`
  abbrev pub is_conflict : CustomColorMap N → Option (CustomColorMap N) → Bool
  is_conflict d none = false
  is_conflict d (some registered) = not (definitions_equal js registered d)

  -- What is refused of the name of a color map.
  abbrev pub is_refused : Option (CustomColorMap N) → Name → Maps N → Bool
  is_refused none id r = not (has_color_map id r)
  is_refused (some d) id r =
      (not (is_custom id) || not (d.id === id))
      || is_conflict d (custom_color_map_definition d.id r)

  abbrev pub is_version_one : Value N → Option (Unit {0})
  is_version_one v = number_of v >>= λ n. refuse_if (not (js.equal n (js.literal 1)))

  abbrev pub timestep_in : Value N → Option ℕ
  timestep_in v = integer_in js v >>= natural_of

  -- up to `legend_visible`
  unfoldable pub read_look :
      Value N → Maps N → Option (Representation × Name × Option (CustomColorMap N) × N × Bool)
  read_look v r = do
    refuse_if (not (is_object v))
    is_version_one (property v "schema_version")
    representation ← named representation_named (property v "representation")
    color_map ← text_of (property v "color_map")
    embedded ← embedded_of (property v "custom_color_map")
    refuse_if (is_refused embedded color_map r)
    opacity ← number_within js 0 1 (property v "opacity")
    legend ← boolean_of (property v "legend_visible")
    some (representation, color_map, embedded, opacity, legend)

  -- up to `table_coordinates`
  unfoldable pub read_scene :
      Value N
      → Option (
          Option (DisplayStyle N)
          × Option ScalarSelection
          × Option (N × N)
          × Option (CameraState N)
          × Option (Option TableCoordinates))
  read_scene v = do
    style ← optional (read_style js) (property v "display_style")
    color_by ← nullable read_selection (property v "color_by")
    range ← nullable (read_range js) (property v "color_range")
    camera ← nullable (read_camera js) (property v "camera")
    coordinates ← optional (nullable read_coordinates) (property v "table_coordinates")
    some (style, color_by, range, camera, coordinates)

  -- up to `volume_opacity_points`
  unfoldable pub read_image :
      Value N
      → Option (
          Option ImageMode
          × Option SliceAxis
          × Option ℤ
          × Option ℕ
          × Option (List (VolumeOpacityPoint N)))
  read_image v = do
    mode ← optional (named image_mode_named) (property v "image_mode")
    axis ← optional (named slice_axis_named) (property v "slice_axis")
    index ← optional (integer_in js) (property v "slice_index")
    timestep ← optional timestep_in (property v "timestep_index")
    points ← optional (read_opacity_points js) (property v "volume_opacity_points")
    some (mode, axis, index, timestep, points)

  -- Every check before the registration.
  unfoldable pub read_fields : Value N → Maps N → Option (ViewState N)
  read_fields v r = do
    look ← read_look v r
    scene ← read_scene v
    image ← read_image v
    some (record {
      representation = look.0;
      display_style = scene.0;
      color_by = scene.1;
      color_range = scene.2;
      opacity = look.3;
      color_map = look.1;
      custom_color_map = look.2;
      legend_visible = look.4;
      camera = scene.3;
      table_coordinates = scene.4;
      image_mode = image.0;
      slice_axis = image.1;
      slice_index = image.2;
      timestep_index = image.3;
      volume_opacity_points = image.4;
    })

  abbrev pub Outcome : Type 0
  Outcome = Result ColorMapError (Option (Maps N × Option (ViewState N)))

  -- `if (!registered) return null`
  abbrev pub after_registration :
      ViewState N → Result ColorMapError (Option (Maps N × Bool)) → Outcome
  after_registration s (err e) = err e
  after_registration s (ok none) = ok none
  after_registration s (ok (some (r, true))) = ok (some (r, some s))
  after_registration s (ok (some (r, false))) = ok (some (r, none))

  abbrev pub register_embedded : Option (CustomColorMap N) → ViewState N → Maps N → Outcome
  register_embedded none s r = ok (some (r, some s))
  register_embedded (some d) s r = after_registration s (
      register_custom_color_map js.is_finite js.less js.equal (js.literal 0) (js.literal 1) d.id
        d.label d.stops r)

  abbrev pub restore_fields : Option (ViewState N) → Maps N → Outcome
  restore_fields none r = ok (some (r, none))
  restore_fields (some s) r = register_embedded s.custom_color_map s r

  -- `parseViewState`: the registry that it leaves, and the view or null
  unfoldable pub parse_view_state : Value N → Maps N → Outcome
  unfolding read_look read_scene read_image read_fields
  parse_view_state v r = restore_fields (read_fields v r) r
