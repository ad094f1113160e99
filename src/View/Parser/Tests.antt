-- ===== src/View/Parser/Tests.antt =====
-- Stored views at concrete values, with integers as the numbers of the language.
use Prim.Native.Nat.{◌^◌}
use my_paraview_web.Common.{
  ◌≡◌, refl, true, false, Option, none, some, [], ◌∷◌, arith, leb, ltb, ◌+◌, if◌then◌else◌,
}
use my_paraview_web.Common.Eq.{codes}
use my_paraview_web.Common.Int.{ℤ, pos, negsuc, ltb_ℤ, pos_part, neg_part}
use my_paraview_web.Common.Result.{ok}
use my_paraview_web.Display.Snapshot.{same_ℤ, wireframe, point, slice, axis_x}
use my_paraview_web.Display.History.{ViewState}
use my_paraview_web.Json.{JsNumbers}
use my_paraview_web.ColorMap.{is_custom_id, CustomColorMap, validated_stops}
use my_paraview_web.Csv.Points.{trim}
use my_paraview_web.ColorMap.Registry.{register, register_custom_color_map}
use my_paraview_web.View.Fields.{
  representation_named, association_named, image_mode_named, slice_axis_named,
}
use my_paraview_web.ColorMap.Definition.{
  Maps, has_color_map, parse_definition, definition_of, read_stop, custom_color_map_definition,
}
use my_paraview_web.ColorMap.Registry.Room.{IsBounded}
use my_paraview_web.View.Parser.{parse_view_state}
use my_paraview_web.View.Parser.Safety.{parse_view_state-returns, parse_view_state-refused}
use my_paraview_web.View.Parser.Source.{view_value, IsView}
use my_paraview_web.View.Parser.RoundTrip.{IsSafeInteger, parse_view_state-view_value}
use my_paraview_web.View.Parser.Available.Valid.{parse_view_state-IsView}

abbrev integers : JsNumbers ℤ
integers = record {
  is_finite = λ n. true;
  less = ltb_ℤ;
  at_most = λ a b. leb (pos_part a + neg_part b) (pos_part b + neg_part a);
  equal = same_ℤ;
  integer_of = some;
  literal = pos;
}

abbrev two_stops : CustomColorMap ℤ
two_stops = record {
  id = codes "custom:ice:a1";
  label = codes "ice";
  stops =
      record { position = pos 0; rgb = pos 0 ∷ pos 0 ∷ pos 1 ∷ [] }
      ∷ record { position = pos 1; rgb = pos 1 ∷ pos 1 ∷ pos 1 ∷ [] }
      ∷ [];
}

abbrev empty_maps : Maps ℤ
empty_maps = record { labels = []; maps = []; retained = []; version = 0 }

abbrev ice_maps : Maps ℤ
ice_maps = record {
  labels = record { id = codes "custom:ice:a1"; label = codes "ice" } ∷ [];
  maps = record { name = codes "custom:ice:a1"; stops = two_stops.stops } ∷ [];
  retained = [];
  version = 1;
}

abbrev ice_view : ViewState ℤ
ice_view = record {
  representation = wireframe;
  display_style = some (record {
    solid_color = codes "#ffFF00";
    edge_color = codes "#000000";
    point_size = pos 3;
    line_width = pos 1;
  });
  color_by = some (record { name = codes "p"; association = point });
  color_range = some (negsuc 4, pos 2);
  opacity = pos 1;
  color_map = codes "custom:ice:a1";
  custom_color_map = some two_stops;
  legend_visible = true;
  camera = some (record {
    position = (pos 0, pos 0, pos 9);
    focal_point = (pos 0, pos 0, pos 0);
    view_up = (pos 0, pos 1, pos 0);
    parallel_scale = pos 1;
    parallel_projection = some false;
  });
  table_coordinates = some (some (record { x = codes "a"; y = codes "b"; z = codes "c" }));
  image_mode = some slice;
  slice_axis = some axis_x;
  slice_index = some (negsuc 2);
  timestep_index = some 4;
  volume_opacity_points =
      some (record { value = pos 0; alpha = pos 0 } ∷ record { value = pos 1; alpha = pos 1 } ∷ []);
}

ice_view-IsView : IsView integers ice_view
unfolding trim validated_stops is_custom_id
ice_view-IsView = record {
  style = refl;
  range = refl;
  opacity = refl;
  embedded = record { id_fits = refl; label_fits = refl; trimmed = refl; stops_fit = refl };
  camera = refl;
  coordinates = refl;
  points = refl;
}

ice_view_read :
    parse_view_state integers (view_value integers (λ z. z) ice_view) empty_maps
    ≡ ok (some (ice_maps, some ice_view))
unfolding parse_view_state parse_definition definition_of read_stop trim validated_stops
    is_custom_id custom_color_map_definition register_custom_color_map register representation_named
    association_named image_mode_named slice_axis_named
ice_view_read = refl

-- An integer that is not safe is written as another number, as the language does.
abbrev nearest : ℤ → ℤ
nearest z = if ltb (pos_part z + neg_part z) (2 ^ 53) then z else pos (2 ^ 53)

nearest-safe : (z : ℤ) → IsSafeInteger z → ◌≡◌ {A = Option ℤ} (some (nearest z)) (some z)
nearest-safe z h =
    let safe : ltb (pos_part z + neg_part z) (2 ^ 53) ≡ true = ground arith in rw safe refl

parse_view_state-view_value_example :
    parse_view_state integers (view_value integers nearest ice_view) empty_maps
    ≡ ok (some (ice_maps, some ice_view))
unfolding custom_color_map_definition register
parse_view_state-view_value_example =
    parse_view_state-view_value integers nearest refl nearest-safe ice_view empty_maps
      ice_view-IsView (record { slice_index = omega arith; timestep_index = omega arith }) refl refl

parse_view_state-IsView_example :
    IsView integers ice_view × (has_color_map ice_view.color_map ice_maps ≡ true)
parse_view_state-IsView_example =
    parse_view_state-IsView integers (view_value integers (λ z. z) ice_view) empty_maps ice_view
      ice_view_read

empty-IsBounded : IsBounded empty_maps
empty-IsBounded = record { labels_le = omega arith }

parse_view_state-returns_example :
    (r' : Maps ℤ) × (found : Option (ViewState ℤ)) × (parse_view_state integers
        (view_value integers (λ z. z) ice_view)
        empty_maps
      ≡ ok (some (r', found)))
    × IsBounded r'
parse_view_state-returns_example =
    parse_view_state-returns integers (view_value integers (λ z. z) ice_view) empty_maps
      empty-IsBounded

-- The same view with an opacity of two: its color map is not registered.
abbrev opaque_view : ViewState ℤ
opaque_view = record ice_view { opacity = pos 2 }

opaque_view_refused :
    parse_view_state integers (view_value integers (λ z. z) opaque_view) empty_maps
    ≡ ok (some (empty_maps, none))
unfolding parse_view_state parse_definition definition_of read_stop trim validated_stops
    is_custom_id custom_color_map_definition representation_named
opaque_view_refused = refl

parse_view_state-refused_example : ◌≡◌ {A = Maps ℤ} empty_maps empty_maps
parse_view_state-refused_example =
    parse_view_state-refused integers (view_value integers (λ z. z) opaque_view) empty_maps
      empty-IsBounded opaque_view_refused
