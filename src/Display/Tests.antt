-- ===== src/Display/Tests.antt =====
-- Runs of the undo history at concrete inputs, with natural numbers as the browser's numbers.
use mathlib.Core.List.{foldl}
use my_paraview_web.Common.{ℕ, ◌≡◌, refl, true, false, none, some, List, [], ◌∷◌, arith, ◌==◌}
use my_paraview_web.Common.Int.{pos}
use my_paraview_web.Common.Eq.{ℕ_eq}
use my_paraview_web.Display.Snapshot.{
  Snapshot, DisplayStyle, surface, wireframe, slice, volume, axis_z, snapshots_equal,
}
use my_paraview_web.Display.History.{
  Display, Defaults, ViewState, Action, edit, rerender, undone, redone, wiped, set_opacity,
  target_of, act,
}
use my_paraview_web.Display.History.Bounds.{IsBounded, foldl-act-IsBounded}
use my_paraview_web.Display.History.Undo.{IsSettled, undo_times, edit_to, undo_times-edits}

abbrev plain_style : DisplayStyle ℕ
plain_style = record {
  solid_color = (b'#' ∷ b'f' ∷ b'f' ∷ b'f' ∷ b'f' ∷ b'f' ∷ b'f' ∷ []);
  edge_color = (b'#' ∷ b'0' ∷ b'0' ∷ b'0' ∷ b'0' ∷ b'0' ∷ b'0' ∷ []);
  point_size = 3;
  line_width = 1;
}

abbrev some_defaults : Defaults ℕ
some_defaults = record {
  display_style = plain_style;
  volume_opacity_points = record { value = 0; alpha = 1 } ∷ [];
}

abbrev start_snapshot : Snapshot ℕ
start_snapshot = record {
  representation = surface;
  display_style = plain_style;
  color_by = none;
  custom_color_range = none;
  opacity = 1;
  color_map =
      (b'c' ∷ b'o' ∷ b'o' ∷ b'l' ∷ b'-' ∷ b't' ∷ b'o' ∷ b'-' ∷ b'w' ∷ b'a' ∷ b'r' ∷ b'm' ∷ []);
  legend_visible = true;
  camera_state = none;
  table_coordinates = none;
  image_mode = slice;
  slice_axis = axis_z;
  slice_index = pos 0;
  timestep_index = 0;
  volume_opacity_points = record { value = 0; alpha = 1 } ∷ [];
}

abbrev with_opacity : ℕ → Snapshot ℕ
with_opacity n = record start_snapshot { opacity = n }

abbrev start_display : Display ℕ
start_display = record {
  shown = start_snapshot;
  snapshot = start_snapshot;
  last_recorded = start_snapshot;
  past = [];
  future = [];
  automatic_timestep = none;
  runtime_color_range = none;
  axes_visible = true;
  playing = false;
}

abbrev later_display : Display ℕ
later_display = record start_display { past = with_opacity 5 ∷ with_opacity 6 ∷ [] }

abbrev some_actions : List (Action ℕ)
some_actions = edit (set_opacity 4) ∷ rerender true ∷ undone ∷ redone ∷ wiped ∷ []

foldl-act-IsBounded_example : IsBounded (foldl (act some_defaults) start_display some_actions)
foldl-act-IsBounded_example =
    foldl-act-IsBounded some_defaults some_actions start_display
      (record { past_le = omega arith; future_le = omega arith })

start_display-IsSettled : IsSettled start_display
start_display-IsSettled = record { rendered = refl; recorded = refl; manual = refl }

opacity_differs :
    (m n : ℕ) → (m == n) ≡ false → snapshots_equal (with_opacity m) (with_opacity n) ≡ false
unfolding snapshots_equal
opacity_differs m n h = rw h refl

undo_times-edits_example :
    let d = undo_times 2 (foldl edit_to start_display (with_opacity 2 ∷ with_opacity 3 ∷ [])) in
    (d.snapshot ≡ start_snapshot) × (d.shown ≡ start_snapshot) × IsSettled d
undo_times-edits_example =
    undo_times-edits start_display (with_opacity 2 ∷ with_opacity 3 ∷ []) start_display-IsSettled
      (opacity_differs 1 2 refl, (opacity_differs 2 3 refl, tt)) (omega arith)

abbrev stored_view : ViewState ℕ
stored_view = record {
  representation = wireframe;
  display_style = none;
  color_by = none;
  color_range = none;
  opacity = 1;
  color_map = (b'v' ∷ b'i' ∷ b'r' ∷ b'i' ∷ b'd' ∷ b'i' ∷ b's' ∷ []);
  custom_color_map = none;
  legend_visible = false;
  camera = none;
  table_coordinates = none;
  image_mode = some volume;
  slice_axis = none;
  slice_index = none;
  timestep_index = some 3;
  volume_opacity_points = none;
}

stored_view_differs : snapshots_equal start_snapshot (target_of some_defaults stored_view) ≡ false
unfolding snapshots_equal target_of
stored_view_differs = refl
