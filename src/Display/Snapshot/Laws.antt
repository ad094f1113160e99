-- ===== src/Display/Snapshot/Laws.antt =====
-- Lemmas on `snapshotsEqual` of frontend/src/hooks/useDisplayState.ts.
use my_paraview_web.Common.{
  Bool, true, false, ◌&&◌, Option, none, some, List, [], ◌∷◌, ◌≡◌, refl, ◌==◌, ==_refl, Bool-cases,
  inl, inr,
}
use my_paraview_web.Common.Eq.{Eq, Units_eq, beq_refl}
use my_paraview_web.Common.Int.{ℤ, pos, negsuc}
use my_paraview_web.Display.Snapshot.{
  Representation, surface, surface_with_edges, wireframe, points, ScalarAssociation, point, cell,
  ImageMode, slice, volume, SliceAxis, axis_x, axis_y, axis_z, ScalarSelection, TableCoordinates,
  DisplayStyle, CameraState, VolumeOpacityPoint, Snapshot, same_representation, same_association,
  same_mode, same_axis, same_bool, same_ℤ, same_option, same_list, same_selection, same_coordinates,
  same_range, same_style, same_camera, same_opacity_point, or_false, same_triple, snapshots_equal,
}

representation_refl : (a : Representation) → same_representation a a ≡ true
representation_refl surface = refl
representation_refl surface_with_edges = refl
representation_refl wireframe = refl
representation_refl points = refl

mode_refl : (a : ImageMode) → same_mode a a ≡ true
mode_refl slice = refl
mode_refl volume = refl

axis_refl : (a : SliceAxis) → same_axis a a ≡ true
axis_refl axis_x = refl
axis_refl axis_y = refl
axis_refl axis_z = refl

bool_refl : (a : Bool) → same_bool a a ≡ true
bool_refl true = refl
bool_refl false = refl

ℤ_refl : (a : ℤ) → same_ℤ a a ≡ true
ℤ_refl (pos a) = ==_refl a
ℤ_refl (negsuc a) = ==_refl a

association_refl : (a : ScalarAssociation) → same_association a a ≡ true
association_refl point = refl
association_refl cell = refl

selection_refl : (a : ScalarSelection) → same_selection a a ≡ true
selection_refl a = rw (beq_refl a.name, association_refl a.association)

coordinates_refl : (a : TableCoordinates) → same_coordinates a a ≡ true
coordinates_refl a = rw (beq_refl a.x, beq_refl a.y, beq_refl a.z)

option_refl {ℓ} :
    {A : Type ℓ} (same : A → A → Bool)
    → ((a : A) → same a a ≡ true)
    → (o : Option A) → same_option same o o ≡ true
option_refl same h none = refl
option_refl same h (some a) = h a

list_refl {ℓ} :
    {A : Type ℓ} (same : A → A → Bool)
    → ((a : A) → same a a ≡ true)
    → (xs : List A) → same_list same xs xs ≡ true
unfolding same_list
list_refl same h [] = refl
list_refl same h (x ∷ xs) = rw (h x, list_refl same h xs)

and-false : (a : Bool) → (a && false) ≡ false
and-false true = refl
and-false false = refl

module _ {N : Type 0} ⦃e : Eq N⦄ where
  range_refl : (a : N × N) → same_range a a ≡ true
  range_refl a = rw (beq_refl a.0, beq_refl a.1)

  triple_refl : (a : N × N × N) → same_triple a a ≡ true
  triple_refl a = rw (beq_refl a.0, beq_refl a.1, beq_refl a.2)

  style_refl : (a : DisplayStyle N) → same_style a a ≡ true
  style_refl a =
      rw (
        beq_refl a.solid_color,
        beq_refl a.edge_color,
        beq_refl a.point_size,
        beq_refl a.line_width,
      )

  camera_refl : (a : CameraState N) → same_camera a a ≡ true
  camera_refl a = simp (
    bool_refl (or_false a.parallel_projection),
    beq_refl a.parallel_scale,
    triple_refl a.position,
    triple_refl a.focal_point,
    triple_refl a.view_up,
  )

  opacity_refl : (a : VolumeOpacityPoint N) → same_opacity_point a a ≡ true
  opacity_refl a = rw (beq_refl a.value, beq_refl a.alpha)

  pub snapshots_equal_refl : (s : Snapshot N) → snapshots_equal s s ≡ true
  unfolding snapshots_equal
  snapshots_equal_refl s = rw (
    representation_refl s.representation,
    style_refl s.display_style,
    option_refl same_selection selection_refl s.color_by,
    option_refl same_range range_refl s.custom_color_range,
    beq_refl s.opacity,
    beq_refl s.color_map,
    bool_refl s.legend_visible,
    option_refl same_camera camera_refl s.camera_state,
    option_refl same_coordinates coordinates_refl s.table_coordinates,
    mode_refl s.image_mode,
    axis_refl s.slice_axis,
    ℤ_refl s.slice_index,
    ==_refl s.timestep_index,
    list_refl same_opacity_point opacity_refl s.volume_opacity_points,
  )

  pub timestep_of_snapshots_equal :
      (l r : Snapshot N)
      → snapshots_equal l r ≡ true
      → (l.timestep_index == r.timestep_index) ≡ true
  unfolding snapshots_equal
  timestep_of_snapshots_equal l r h = elim (Bool-cases (l.timestep_index == r.timestep_index)) [
    | inl same ↦ same
    | inr differs ↦ let h' = simp (differs, and-false) at h in cc
  ]
