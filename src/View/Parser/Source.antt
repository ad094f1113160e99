-- ===== src/View/Parser/Source.antt =====
-- The object of a view, as frontend/src/types.ts declares ViewState, and what a view that can be
-- stored satisfies. A part that is left out is a member that is undefined.
use my_paraview_web.Common.{
  ℕ, ◌≡◌, Bool, true, not, ◌&&◌, ◌||◌, Option, none, some, List, [], ◌∷◌, map, all, length, leb,
}
use my_paraview_web.Common.Eq.{Text, codes}
use my_paraview_web.Common.Int.{ℤ, pos}
use my_paraview_web.Json.{
  Value, undefined, null, boolean, number, text, array, object, Members, no_members, member,
  as_values, JsNumbers,
}
use my_paraview_web.Display.Snapshot.{
  Representation, surface, surface_with_edges, wireframe, points, ScalarAssociation, point, cell,
  ScalarSelection, TableCoordinates, ImageMode, slice, volume, SliceAxis, axis_x, axis_y, axis_z,
  DisplayStyle, CameraState, VolumeOpacityPoint,
}
use my_paraview_web.Display.History.{ViewState}
use my_paraview_web.ColorMap.{Stop, CustomColorMap}
use my_paraview_web.ColorMap.Definition.Laws.{IsDefinition}
use my_paraview_web.View.Fields.{is_color, are_distinct, in_unit}

abbrev pub or_undefined {ℓ} : {N : Type 0} {A : Type ℓ} → (A → Value N) → Option A → Value N
or_undefined write none = undefined
or_undefined write (some a) = write a

abbrev pub or_null {ℓ} : {N : Type 0} {A : Type ℓ} → (A → Value N) → Option A → Value N
or_null write none = null
or_null write (some a) = write a

-- A part that is there satisfies `P`.
abbrev pub IsEach {ℓ} : {A : Type ℓ} → (A → Type 0) → Option A → Type 0
IsEach P none = Unit
IsEach P (some a) = P a

abbrev pub representation_name : Representation → Text
representation_name surface = codes "surface"
representation_name surface_with_edges = codes "surface-with-edges"
representation_name wireframe = codes "wireframe"
representation_name points = codes "points"

abbrev pub association_name : ScalarAssociation → Text
association_name point = codes "point"
association_name cell = codes "cell"

abbrev pub image_mode_name : ImageMode → Text
image_mode_name slice = codes "slice"
image_mode_name volume = codes "volume"

abbrev pub slice_axis_name : SliceAxis → Text
slice_axis_name axis_x = codes "X"
slice_axis_name axis_y = codes "Y"
slice_axis_name axis_z = codes "Z"

module _ {N : Type 0} where
  abbrev pub numbers : List N → Value N
  numbers ns = array (as_values (map number ns))

  abbrev pub stop_value : Stop N → Value N
  stop_value s =
      object (member "position" (number s.position) (member "rgb" (numbers s.rgb) no_members))

  abbrev pub definition_value : CustomColorMap N → Value N
  definition_value d = object (
      member "id" (text d.id) (
        member "label" (text d.label)
          (member "stops" (array (as_values (map stop_value d.stops))) no_members)))

  abbrev pub style_value : DisplayStyle N → Value N
  style_value s = object (
      member "solid_color" (text s.solid_color) (
        member "edge_color" (text s.edge_color) (
          member "point_size" (number s.point_size)
            (member "line_width" (number s.line_width) no_members))))

  abbrev pub selection_value : ScalarSelection → Value N
  selection_value s = object (
      member "name" (text s.name)
        (member "association" (text (association_name s.association)) no_members))

  abbrev pub range_value : N × N → Value N
  range_value r = numbers (r.0 ∷ r.1 ∷ [])

  abbrev pub vector_value : N × N × N → Value N
  vector_value t = numbers (t.0 ∷ t.1 ∷ t.2 ∷ [])

  abbrev pub camera_value : CameraState N → Value N
  camera_value c = object (
      member "position" (vector_value c.position) (
        member "focal_point" (vector_value c.focal_point) (
          member "view_up" (vector_value c.view_up) (
            member "parallel_scale" (number c.parallel_scale) (
              member "parallel_projection" (or_undefined boolean c.parallel_projection)
                no_members)))))

  abbrev pub coordinates_value : TableCoordinates → Value N
  coordinates_value c =
      object (member "x" (text c.x) (member "y" (text c.y) (member "z" (text c.z) no_members)))

  abbrev pub opacity_point_value : VolumeOpacityPoint N → Value N
  opacity_point_value p =
      object (member "value" (number p.value) (member "alpha" (number p.alpha) no_members))

module _ {N : Type 0} (js : JsNumbers N) (integer : ℤ → N) where
  abbrev pub late_members : ViewState N → Members N
  late_members s = member "image_mode" (or_undefined (λ m. text (image_mode_name m)) s.image_mode) (
      member "slice_axis" (or_undefined (λ a. text (slice_axis_name a)) s.slice_axis) (
        member "slice_index" (or_undefined (λ z. number (integer z)) s.slice_index) (
          member "timestep_index" (or_undefined (λ n. number (integer (pos n))) s.timestep_index) (
            member "volume_opacity_points"
              (or_undefined (λ ps. array (as_values (map opacity_point_value ps)))
                s.volume_opacity_points)
              no_members))))

  abbrev pub view_value : ViewState N → Value N
  view_value s = object (
      member "schema_version" (number (js.literal 1)) (
        member "representation" (text (representation_name s.representation)) (
          member "display_style" (or_undefined style_value s.display_style) (
            member "color_by" (or_null selection_value s.color_by) (
              member "color_range" (or_null range_value s.color_range) (
                member "opacity" (number s.opacity) (
                  member "color_map" (text s.color_map) (
                    member "custom_color_map" (or_undefined definition_value s.custom_color_map) (
                      member "legend_visible" (boolean s.legend_visible) (
                        member "camera" (or_null camera_value s.camera) (
                          member "table_coordinates"
                            (or_undefined (or_null coordinates_value) s.table_coordinates)
                            (late_members s))))))))))))

module _ {N : Type 0} (js : JsNumbers N) where
  abbrev pub is_within : ℕ → ℕ → N → Bool
  is_within low high n =
      js.is_finite n && not (js.less n (js.literal low) || js.less (js.literal high) n)

  abbrev pub is_style : DisplayStyle N → Bool
  is_style s =
      (is_color s.solid_color && is_color s.edge_color)
      && (is_within 1 30 s.point_size && is_within 1 10 s.line_width)

  abbrev pub is_range : N × N → Bool
  is_range r = (js.is_finite r.0 && js.is_finite r.1) && not (js.at_most r.1 r.0)

  abbrev pub is_vector : N × N × N → Bool
  is_vector t = js.is_finite t.0 && (js.is_finite t.1 && js.is_finite t.2)

  abbrev pub is_camera : CameraState N → Bool
  is_camera c =
      is_vector c.position
      && (is_vector c.focal_point
          && (is_vector c.view_up
              && (js.is_finite c.parallel_scale
                  && not (js.at_most c.parallel_scale (js.literal 0)))))

  abbrev pub are_opacity_points : List (VolumeOpacityPoint N) → Bool
  are_opacity_points ps =
      (leb 2 (length ps) && leb (length ps) 4)
      && all (λ p. in_unit js p.value && in_unit js p.alpha) ps

  pub record IsView (s : ViewState N) : Type 0 where
    pub style : IsEach (λ a. is_style a ≡ true) s.display_style
    pub range : IsEach (λ a. is_range a ≡ true) s.color_range
    pub opacity : is_within 0 1 s.opacity ≡ true
    pub embedded : IsEach (IsDefinition js) s.custom_color_map
    pub camera : IsEach (λ a. is_camera a ≡ true) s.camera
    pub coordinates : IsEach (λ a. IsEach (λ c. are_distinct c ≡ true) a) s.table_coordinates
    pub points : IsEach (λ a. are_opacity_points a ≡ true) s.volume_opacity_points
