-- ===== src/View/Parser/Available/Valid.antt =====
-- A view that parseViewState of frontend/src/lib/viewState.ts returns satisfies what its readers
-- test.
use my_paraview_web.Common.{◌≡◌, true, Option, none, some}
use my_paraview_web.Common.Result.{ok}
use my_paraview_web.Json.{Value, JsNumbers, property}
use my_paraview_web.Display.History.{ViewState}
use my_paraview_web.ColorMap.{CustomColorMap}
use my_paraview_web.ColorMap.Definition.{Maps, has_color_map}
use my_paraview_web.ColorMap.Definition.Laws.{IsDefinition}
use my_paraview_web.View.Fields.{
  nullable, are_distinct, read_style, read_range, read_camera, read_coordinates,
  read_opacity_points,
}
use my_paraview_web.View.Parser.{embedded_of, parse_view_state}
use my_paraview_web.View.Parser.Reading.{read_fields-IsRead}
use my_paraview_web.View.Parser.Safety.{embedded-IsDefinition}
use my_paraview_web.View.Parser.Source.{
  is_style, is_range, is_camera, are_opacity_points, IsEach, IsView,
}
use my_paraview_web.View.Parser.Available.{parse_view_state-known}
use my_paraview_web.View.Parser.Available.Readers.{
  optional-IsEach, nullable-IsEach, read_coordinates-distinct, number_within-within,
  read_style-style, read_range-range, read_camera-camera, read_opacity_points-valid,
}

module _ {N : Type 0} (js : JsNumbers N) where
  embedded-IsEach :
      (v : Value N) (o : Option (CustomColorMap N))
      → embedded_of js v ≡ some o
      → IsEach (IsDefinition js) o
  embedded-IsEach v none h = tt
  embedded-IsEach v (some d) h = embedded-IsDefinition js v d h

  -- A view that is returned has passed every test of its parts, and its color map is known to the
  -- registry that is left.
  pub parse_view_state-IsView :
      (v : Value N) (r : Maps N) (t : ViewState N) {r' : Maps N}
      → parse_view_state js v r ≡ ok (some (r', some t))
      → IsView js t × (has_color_map t.color_map r' ≡ true)
  parse_view_state-IsView v r t h =
      let (read, known) = parse_view_state-known js v r t h in
      let i = read_fields-IsRead js v r t read in
      (
        record {
          style =
              optional-IsEach (read_style js) (λ a. is_style js a ≡ true) (read_style-style js)
                (property v "display_style") t.display_style i.style;
          range =
              nullable-IsEach (read_range js) (λ a. is_range js a ≡ true) (read_range-range js)
                (property v "color_range") t.color_range i.range;
          opacity = number_within-within js 0 1 (property v "opacity") t.opacity i.opacity;
          embedded = embedded-IsEach (property v "custom_color_map") t.custom_color_map i.embedded;
          camera =
              nullable-IsEach (read_camera js) (λ a. is_camera js a ≡ true) (read_camera-camera js)
                (property v "camera") t.camera i.camera;
          coordinates =
              optional-IsEach (nullable read_coordinates) (IsEach (λ c. are_distinct c ≡ true))
                (nullable-IsEach read_coordinates (λ c. are_distinct c ≡ true)
                  (read_coordinates-distinct N))
                (property v "table_coordinates") t.table_coordinates i.coordinates;
          points =
              optional-IsEach (read_opacity_points js) (λ a. are_opacity_points js a ≡ true)
                (read_opacity_points-valid js) (property v "volume_opacity_points")
                t.volume_opacity_points i.points;
        },
        known,
      )
