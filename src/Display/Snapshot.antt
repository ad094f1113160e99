-- ===== src/Display/Snapshot.antt =====
-- `DisplayHistorySnapshot` and `snapshotsEqual` of frontend/src/hooks/useDisplayState.ts.
-- A number of the browser is of a type `N` with an equality test. Objects are values here: two
-- references to one object are two equal values, and a clone is the value itself.
pub mod Laws
use my_paraview_web.Common.{
  ℕ, Bool, true, false, ◌&&◌, Option, none, some, List, [], ◌∷◌, ◌≡◌, refl, ◌==◌,
}
use my_paraview_web.Common.Eq.{Text, Eq, ◌===◌, Units_eq, beq_refl}
use my_paraview_web.Common.Int.{ℤ, pos, negsuc}

pub data Representation : Type 0 where
  surface surface_with_edges wireframe points : Representation

pub data ScalarAssociation : Type 0 where
  point cell : ScalarAssociation

pub data ImageMode : Type 0 where
  slice volume : ImageMode

pub data SliceAxis : Type 0 where
  axis_x axis_y axis_z : SliceAxis

pub record ScalarSelection : Type 0 where
  pub name : Text
  pub association : ScalarAssociation

pub record TableCoordinates : Type 0 where
  pub x : Text
  pub y : Text
  pub z : Text

pub record DisplayStyle (N : Type 0) : Type 0 where
  pub solid_color : Text
  pub edge_color : Text
  pub point_size : N
  pub line_width : N

pub record CameraState (N : Type 0) : Type 0 where
  pub position : N × N × N
  pub focal_point : N × N × N
  pub view_up : N × N × N
  pub parallel_scale : N
  pub parallel_projection : Option Bool

pub record VolumeOpacityPoint (N : Type 0) : Type 0 where
  pub value : N
  pub alpha : N

pub record Snapshot (N : Type 0) : Type 0 where
  pub representation : Representation
  pub display_style : DisplayStyle N
  pub color_by : Option ScalarSelection
  pub custom_color_range : Option (N × N)
  pub opacity : N
  pub color_map : Text
  pub legend_visible : Bool
  pub camera_state : Option (CameraState N)
  pub table_coordinates : Option TableCoordinates
  pub image_mode : ImageMode
  pub slice_axis : SliceAxis
  pub slice_index : ℤ
  pub timestep_index : ℕ
  pub volume_opacity_points : List (VolumeOpacityPoint N)

-- `===` on the enumerations of strings, on Booleans and on integers
abbrev pub same_representation : Representation → Representation → Bool
same_representation surface surface = true
same_representation surface_with_edges surface_with_edges = true
same_representation wireframe wireframe = true
same_representation points points = true
same_representation _ _ = false

abbrev pub same_association : ScalarAssociation → ScalarAssociation → Bool
same_association point point = true
same_association cell cell = true
same_association _ _ = false

abbrev pub same_mode : ImageMode → ImageMode → Bool
same_mode slice slice = true
same_mode volume volume = true
same_mode _ _ = false

abbrev pub same_axis : SliceAxis → SliceAxis → Bool
same_axis axis_x axis_x = true
same_axis axis_y axis_y = true
same_axis axis_z axis_z = true
same_axis _ _ = false

abbrev pub same_bool : Bool → Bool → Bool
same_bool true b = b
same_bool false true = false
same_bool false false = true

abbrev pub same_ℤ : ℤ → ℤ → Bool
same_ℤ (pos a) (pos b) = a == b
same_ℤ (negsuc a) (negsuc b) = a == b
same_ℤ _ _ = false

-- `left === right || (!!left && !!right && …)`
abbrev pub same_option {ℓ} : {A : Type ℓ} → (A → A → Bool) → Option A → Option A → Bool
same_option same none none = true
same_option same (some a) (some b) = same a b
same_option same _ _ = false

-- `left.length === right.length && left.every(…)`
pub same_list {ℓ} : {A : Type ℓ} → (A → A → Bool) → List A → List A → Bool
same_list same [] [] = true
same_list same (x ∷ xs) (y ∷ ys) = same x y && same_list same xs ys
same_list same _ _ = false

-- `?? false`
abbrev pub or_false : Option Bool → Bool
or_false none = false
or_false (some b) = b

abbrev pub same_selection : ScalarSelection → ScalarSelection → Bool
same_selection a b = a.name === b.name && same_association a.association b.association

abbrev pub same_coordinates : TableCoordinates → TableCoordinates → Bool
same_coordinates a b = a.x === b.x && (a.y === b.y && a.z === b.z)

module _ {N : Type 0} ⦃e : Eq N⦄ where
  abbrev pub same_triple : N × N × N → N × N × N → Bool
  same_triple a b = a.0 === b.0 && (a.1 === b.1 && a.2 === b.2)

  abbrev pub same_range : N × N → N × N → Bool
  same_range a b = a.0 === b.0 && a.1 === b.1

  abbrev pub same_style : DisplayStyle N → DisplayStyle N → Bool
  same_style a b =
      a.solid_color === b.solid_color
      && (a.edge_color === b.edge_color
          && (a.point_size === b.point_size && a.line_width === b.line_width))

  abbrev pub same_camera : CameraState N → CameraState N → Bool
  same_camera a b =
      same_bool (or_false a.parallel_projection) (or_false b.parallel_projection)
      && (a.parallel_scale === b.parallel_scale
          && (same_triple a.position b.position
              && (same_triple a.focal_point b.focal_point && same_triple a.view_up b.view_up)))

  abbrev pub same_opacity_point : VolumeOpacityPoint N → VolumeOpacityPoint N → Bool
  same_opacity_point a b = a.value === b.value && a.alpha === b.alpha

  unfoldable pub snapshots_equal : Snapshot N → Snapshot N → Bool
  unfolding same_list
  snapshots_equal l r =
      same_representation l.representation r.representation
      && (same_style l.display_style r.display_style
          && (same_option same_selection l.color_by r.color_by
              && (same_option same_range l.custom_color_range r.custom_color_range
                  && (l.opacity === r.opacity
                      && (l.color_map === r.color_map
                          && (same_bool l.legend_visible r.legend_visible
                              && (same_option same_camera l.camera_state r.camera_state
                                  && (same_option same_coordinates l.table_coordinates
                                        r.table_coordinates
                                      && (same_mode l.image_mode r.image_mode
                                          && (same_axis l.slice_axis r.slice_axis
                                              && (same_ℤ l.slice_index r.slice_index
                                                  && (l.timestep_index == r.timestep_index
                                                      && same_list same_opacity_point
                                                          l.volume_opacity_points
                                                          r.volume_opacity_points))))))))))))
