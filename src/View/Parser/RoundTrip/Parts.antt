-- ===== src/View/Parser/RoundTrip/Parts.antt =====
-- The readers of frontend/src/lib/viewState.ts on the objects of the parts of a view.
use mathlib.Core.Bool.{and-eq-true_iff}
use my_paraview_web.Common.{
  not_eq_true, ℕ, ◌≡◌, refl, ap, Bool, true, false, ◌&&◌, ◌||◌, Option, none, some, List, [], ◌∷◌,
  map, All, length, leb, ltb, arith, length-map, all,
}
use my_paraview_web.Json.{
  Value, boolean, number, text, array, JsNumbers, number_of, boolean_of, items, as_values,
}
use my_paraview_web.Json.Steps.{each}
use my_paraview_web.Display.Snapshot.{
  Representation, surface, surface_with_edges, wireframe, points, ScalarAssociation, point, cell,
  ScalarSelection, TableCoordinates, ImageMode, slice, volume, SliceAxis, axis_x, axis_y, axis_z,
  DisplayStyle, CameraState, VolumeOpacityPoint,
}
use my_paraview_web.View.Fields.{
  is_color, are_distinct, in_unit, representation_named, association_named, image_mode_named,
  slice_axis_named, color_of, finite_of, number_within, read_style, read_selection, read_range,
  read_vector, read_camera, read_coordinates, read_opacity_point, read_opacity_points, optional,
}
use my_paraview_web.View.Parser.Source.{
  representation_name, association_name, image_mode_name, slice_axis_name, style_value,
  selection_value, range_value, vector_value, camera_value, coordinates_value, opacity_point_value,
  or_undefined, is_within, is_style, is_range, is_vector, is_camera, are_opacity_points,
}

pub representation_named-name :
    (r : Representation) → representation_named (representation_name r) ≡ some r
unfolding representation_named
representation_named-name surface = refl
representation_named-name surface_with_edges = refl
representation_named-name wireframe = refl
representation_named-name points = refl

pub association_named-name :
    (a : ScalarAssociation) → association_named (association_name a) ≡ some a
unfolding association_named
association_named-name point = refl
association_named-name cell = refl

pub image_mode_named-name : (m : ImageMode) → image_mode_named (image_mode_name m) ≡ some m
unfolding image_mode_named
image_mode_named-name slice = refl
image_mode_named-name volume = refl

pub slice_axis_named-name : (a : SliceAxis) → slice_axis_named (slice_axis_name a) ≡ some a
unfolding slice_axis_named
slice_axis_named-name axis_x = refl
slice_axis_named-name axis_y = refl
slice_axis_named-name axis_z = refl

-- Items that are written and read one by one come back.
pub each-written {ℓ κ} :
    {A : Type ℓ} {B : Type κ} (read : B → Option A) (write : A → B) (xs : List A)
    → All (λ a. read (write a) ≡ some a) xs
    → each read (map write xs) ≡ some xs
each-written read write [] h = refl
each-written read write (x ∷ xs) (p, h) = rw (p, each-written read write xs h) refl

pub items-as_values : {N : Type 0} (vs : List (Value N)) → items (as_values vs) ≡ vs
items-as_values [] = refl
items-as_values (v ∷ vs) = ap (v ∷◌) (items-as_values vs)

module _ {N : Type 0} where
  pub each-number_of : (ns : List N) → each number_of (map number ns) ≡ some ns
  each-number_of [] = refl
  each-number_of (n ∷ ns) = rw (each-number_of ns) refl

pub read_selection-value :
    (N : Type 0) (s : ScalarSelection) → read_selection {N = N} (selection_value s) ≡ some s
read_selection-value N s = rw (association_named-name s.association) refl

pub read_coordinates-value :
    (N : Type 0) (c : TableCoordinates)
    → are_distinct c ≡ true
    → read_coordinates {N = N} (coordinates_value c) ≡ some c
read_coordinates-value N c h = rw h refl

module _ {N : Type 0} (js : JsNumbers N) where
  color_of-text : (t : List ℕ) → is_color t ≡ true → color_of js (text t) ≡ some t
  color_of-text t h = rw h refl

  finite_of-number : (n : N) → js.is_finite n ≡ true → finite_of js (number n) ≡ some n
  finite_of-number n h = rw h refl

  pub number_within-number :
      (low high : ℕ) (n : N)
      → is_within js low high n ≡ true
      → number_within js low high (number n) ≡ some n
  number_within-number low high n h =
      let (finite, inside) = (and-eq-true_iff (js.is_finite n) _).0 h in
      rw (finite, not_eq_true _ inside) refl

  pub read_style-value :
      (s : DisplayStyle N) → is_style js s ≡ true → read_style js (style_value s) ≡ some s
  read_style-value s h =
      let (colors, sizes) =
        (and-eq-true_iff (is_color s.solid_color && is_color s.edge_color) _).0 h in
      let (solid, edge) = (and-eq-true_iff (is_color s.solid_color) _).0 colors in
      let (size, width) = (and-eq-true_iff (is_within js 1 30 s.point_size) _).0 sizes in
      rw
        (
          solid,
          edge,
          number_within-number 1 30 s.point_size size,
          number_within-number 1 10 s.line_width width,
        )
        refl

  pub read_range-value : (r : N × N) → is_range js r ≡ true → read_range js (range_value r) ≡ some r
  read_range-value r h =
      let (finite, order) = (and-eq-true_iff (js.is_finite r.0 && js.is_finite r.1) _).0 h in
      let (first, second) = (and-eq-true_iff (js.is_finite r.0) _).0 finite in
      rw (first, second, not_eq_true _ order) refl

  read_vector-value :
      (t : N × N × N) → is_vector js t ≡ true → read_vector js (vector_value t) ≡ some t
  read_vector-value t h =
      let (first, rest) = (and-eq-true_iff (js.is_finite t.0) _).0 h in
      let (second, third) = (and-eq-true_iff (js.is_finite t.1) _).0 rest in
      rw (first, second, third) refl

  optional-boolean :
      (o : Option Bool) → optional {N = N} boolean_of (or_undefined boolean o) ≡ some o
  optional-boolean none = refl
  optional-boolean (some b) = refl

  pub read_camera-value :
      (c : CameraState N) → is_camera js c ≡ true → read_camera js (camera_value c) ≡ some c
  read_camera-value c h =
      let (position, h1) = (and-eq-true_iff (is_vector js c.position) _).0 h in
      let (focal, h2) = (and-eq-true_iff (is_vector js c.focal_point) _).0 h1 in
      let (up, h3) = (and-eq-true_iff (is_vector js c.view_up) _).0 h2 in
      let (finite, positive) = (and-eq-true_iff (js.is_finite c.parallel_scale) _).0 h3 in
      rw
        (
          read_vector-value c.position position,
          read_vector-value c.focal_point focal,
          read_vector-value c.view_up up,
          finite,
          not_eq_true _ positive,
          optional-boolean c.parallel_projection,
        )
        refl

  read_opacity_points-each :
      (ps : List (VolumeOpacityPoint N))
      → all (λ p. in_unit js p.value && in_unit js p.alpha) ps ≡ true
      → All (λ p. read_opacity_point js (opacity_point_value p) ≡ some p) ps
  read_opacity_points-each [] h = tt
  read_opacity_points-each (p ∷ ps) h =
      let (first, rest) = (and-eq-true_iff (in_unit js p.value && in_unit js p.alpha) _).0 h in
      (rw first refl, read_opacity_points-each ps rest)

  pub read_opacity_points-value :
      (ps : List (VolumeOpacityPoint N))
      → are_opacity_points js ps ≡ true
      → read_opacity_points js (array (as_values (map opacity_point_value ps))) ≡ some ps
  read_opacity_points-value ps h =
      let (count, each_in) = (and-eq-true_iff (leb 2 (length ps) && leb (length ps) 4) _).0 h in
      let count_fits : (ltb (length ps) 2 || ltb 4 (length ps)) ≡ false = ground arith in
      rw
        (
          items-as_values (map opacity_point_value ps),
          length-map opacity_point_value ps,
          count_fits,
        )
        (each-written (read_opacity_point js) opacity_point_value ps
          (read_opacity_points-each ps each_in))
