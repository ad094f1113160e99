-- ===== src/View/Parser/Reading.antt =====
-- What parseViewState of frontend/src/lib/viewState.ts has read, field by field: `IsRead` has an
-- equation for each step of `read_fields`.
use my_paraview_web.Common.{
  ℕ, Bool, false, Option, some, List, ◌≡◌, refl, ap, ◌∙◌, subst, some_injective, not,
}
use my_paraview_web.Common.Int.{ℤ}
use my_paraview_web.Display.Snapshot.{
  Representation, DisplayStyle, ScalarSelection, CameraState, TableCoordinates, ImageMode,
  SliceAxis, VolumeOpacityPoint,
}
use my_paraview_web.ColorMap.{Name, CustomColorMap}
use my_paraview_web.Json.{Value, JsNumbers, property, is_object, text_of, boolean_of}
use my_paraview_web.Json.Steps.{>>=-eq-some, refuse_if-passed}
use my_paraview_web.ColorMap.Definition.{Maps}
use my_paraview_web.Display.History.{ViewState}
use my_paraview_web.View.Fields.{
  optional, nullable, named, representation_named, image_mode_named, slice_axis_named,
  number_within, read_style, read_selection, read_range, read_camera, read_coordinates, integer_in,
  read_opacity_points,
}
use my_paraview_web.View.Parser.{
  embedded_of, is_refused, is_version_one, timestep_in, read_look, read_scene, read_image,
  read_fields,
}

pub record IsRead {N : Type 0} (js : JsNumbers N) (v : Value N) (r : Maps N) (s : ViewState N)
    : Type 0 where
  pub object : not (is_object v) ≡ false
  pub version : is_version_one js (property v "schema_version") ≡ some tt
  pub representation :
      named representation_named (property v "representation") ≡ some s.representation
  pub color_map : text_of (property v "color_map") ≡ some s.color_map
  pub embedded : embedded_of js (property v "custom_color_map") ≡ some s.custom_color_map
  pub accepted : is_refused js s.custom_color_map s.color_map r ≡ false
  pub opacity : number_within js 0 1 (property v "opacity") ≡ some s.opacity
  pub legend : boolean_of (property v "legend_visible") ≡ some s.legend_visible
  pub style : optional (read_style js) (property v "display_style") ≡ some s.display_style
  pub color_by : nullable read_selection (property v "color_by") ≡ some s.color_by
  pub range : nullable (read_range js) (property v "color_range") ≡ some s.color_range
  pub camera : nullable (read_camera js) (property v "camera") ≡ some s.camera
  pub coordinates :
      optional (nullable read_coordinates) (property v "table_coordinates")
      ≡ some s.table_coordinates
  pub mode : optional (named image_mode_named) (property v "image_mode") ≡ some s.image_mode
  pub axis : optional (named slice_axis_named) (property v "slice_axis") ≡ some s.slice_axis
  pub index : optional (integer_in js) (property v "slice_index") ≡ some s.slice_index
  pub timestep : optional (timestep_in js) (property v "timestep_index") ≡ some s.timestep_index
  pub points :
      optional (read_opacity_points js) (property v "volume_opacity_points")
      ≡ some s.volume_opacity_points

module _ {N : Type 0} (js : JsNumbers N) (v : Value N) where
  look-eqs :
      (r : Maps N) (t : Representation × Name × Option (CustomColorMap N) × N × Bool)
      → read_look js v r ≡ some t
      → (not (is_object v) ≡ false)
        × (is_version_one js (property v "schema_version") ≡ some tt)
        × (named representation_named (property v "representation") ≡ some t.0)
        × (text_of (property v "color_map") ≡ some t.1)
        × (embedded_of js (property v "custom_color_map") ≡ some t.2)
        × (is_refused js t.2 t.1 r ≡ false)
        × (number_within js 0 1 (property v "opacity") ≡ some t.3)
        × (boolean_of (property v "legend_visible") ≡ some t.4)
  unfolding read_look
  look-eqs r t h =
      let (object, h0) = refuse_if-passed _ _ h in
      let (_, version, h1) = >>=-eq-some _ _ h0 in
      let (_, representation, h2) = >>=-eq-some _ _ h1 in
      let (_, color_map, h3) = >>=-eq-some _ _ h2 in
      let (_, embedded, h4) = >>=-eq-some _ _ h3 in
      let (accepted, h5) = refuse_if-passed _ _ h4 in
      let (_, opacity, h6) = >>=-eq-some _ _ h5 in
      let (_, legend, h7) = >>=-eq-some _ _ h6 in
      let same = some_injective h7 in
      (
        object,
        version,
        representation ∙ ap (λ u. some u.0) same,
        color_map ∙ ap (λ u. some u.1) same,
        embedded ∙ ap (λ u. some u.2) same,
        subst (λ u. is_refused js u.2 u.1 r ≡ false) same accepted,
        opacity ∙ ap (λ u. some u.3) same,
        legend ∙ ap (λ u. some u.4) same,
      )

  scene-eqs :
      (t : Option (DisplayStyle N)
        × Option ScalarSelection
        × Option (N × N)
        × Option (CameraState N)
        × Option (Option TableCoordinates))
      → read_scene js v ≡ some t
      → (optional (read_style js) (property v "display_style") ≡ some t.0)
        × (nullable read_selection (property v "color_by") ≡ some t.1)
        × (nullable (read_range js) (property v "color_range") ≡ some t.2)
        × (nullable (read_camera js) (property v "camera") ≡ some t.3)
        × (optional (nullable read_coordinates) (property v "table_coordinates") ≡ some t.4)
  unfolding read_scene
  scene-eqs t h =
      let (_, style, h1) = >>=-eq-some _ _ h in
      let (_, color_by, h2) = >>=-eq-some _ _ h1 in
      let (_, range, h3) = >>=-eq-some _ _ h2 in
      let (_, camera, h4) = >>=-eq-some _ _ h3 in
      let (_, coordinates, h5) = >>=-eq-some _ _ h4 in
      let same = some_injective h5 in
      (
        style ∙ ap (λ u. some u.0) same,
        color_by ∙ ap (λ u. some u.1) same,
        range ∙ ap (λ u. some u.2) same,
        camera ∙ ap (λ u. some u.3) same,
        coordinates ∙ ap (λ u. some u.4) same,
      )

  image-eqs :
      (t : Option ImageMode
        × Option SliceAxis
        × Option ℤ
        × Option ℕ
        × Option (List (VolumeOpacityPoint N)))
      → read_image js v ≡ some t
      → (optional (named image_mode_named) (property v "image_mode") ≡ some t.0)
        × (optional (named slice_axis_named) (property v "slice_axis") ≡ some t.1)
        × (optional (integer_in js) (property v "slice_index") ≡ some t.2)
        × (optional (timestep_in js) (property v "timestep_index") ≡ some t.3)
        × (optional (read_opacity_points js) (property v "volume_opacity_points") ≡ some t.4)
  unfolding read_image
  image-eqs t h =
      let (_, mode, h1) = >>=-eq-some _ _ h in
      let (_, axis, h2) = >>=-eq-some _ _ h1 in
      let (_, index, h3) = >>=-eq-some _ _ h2 in
      let (_, timestep, h4) = >>=-eq-some _ _ h3 in
      let (_, points, h5) = >>=-eq-some _ _ h4 in
      let same = some_injective h5 in
      (
        mode ∙ ap (λ u. some u.0) same,
        axis ∙ ap (λ u. some u.1) same,
        index ∙ ap (λ u. some u.2) same,
        timestep ∙ ap (λ u. some u.3) same,
        points ∙ ap (λ u. some u.4) same,
      )

module _ {N : Type 0} (js : JsNumbers N) (v : Value N) (r : Maps N) where
  -- A view that was read has passed every step.
  pub read_fields-IsRead : (s : ViewState N) → read_fields js v r ≡ some s → IsRead js v r s
  unfolding read_fields
  read_fields-IsRead s h =
      let (look, l, h1) = >>=-eq-some _ _ h in
      let (scene, c, h2) = >>=-eq-some _ _ h1 in
      let (image, i, h3) = >>=-eq-some _ _ h2 in
      let (object, version, representation, color_map, embedded, accepted, opacity, legend) =
        look-eqs js v r look l in
      let (style, color_by, range, camera, coordinates) = scene-eqs js v scene c in
      let (mode, axis, index, timestep, points) = image-eqs js v image i in
      subst (IsRead js v r) (some_injective h3) (record {
        object = object;
        version = version;
        representation = representation;
        color_map = color_map;
        embedded = embedded;
        accepted = accepted;
        opacity = opacity;
        legend = legend;
        style = style;
        color_by = color_by;
        range = range;
        camera = camera;
        coordinates = coordinates;
        mode = mode;
        axis = axis;
        index = index;
        timestep = timestep;
        points = points;
      })

  -- Values that pass every step are read.
  pub IsRead-read_fields : (s : ViewState N) → IsRead js v r s → read_fields js v r ≡ some s
  unfolding read_fields read_look read_scene read_image
  IsRead-read_fields s i =
      rw
        (
          i.object, i.version, i.representation, i.color_map, i.embedded, i.accepted, i.opacity,
          i.legend, i.style, i.color_by, i.range, i.camera, i.coordinates, i.mode, i.axis, i.index,
          i.timestep, i.points,
        )
        refl
