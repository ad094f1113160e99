-- ===== src/View/Parser/RoundTrip/Embedded.antt =====
-- parseCustomColorMapDefinition of frontend/src/lib/colormap.ts on the object of a definition.
use my_paraview_web.Common.{◌≡◌, refl, some, List, [], ◌∷◌, map, All}
use my_paraview_web.Json.{number, JsNumbers}
use my_paraview_web.ColorMap.{Stop, CustomColorMap}
use my_paraview_web.ColorMap.Definition.{read_stop, definition_of, parse_definition}
use my_paraview_web.ColorMap.Definition.Laws.{IsDefinition}
use my_paraview_web.View.Parser.Source.{stop_value, definition_value}
use my_paraview_web.View.Parser.RoundTrip.Parts.{each-number_of, each-written, items-as_values}

module _ {N : Type 0} where
  read_stop-value : (s : Stop N) → read_stop (stop_value s) ≡ some s
  unfolding read_stop
  read_stop-value s = rw (items-as_values (map number s.rgb), each-number_of s.rgb) refl

  read_stops-each : (ss : List (Stop N)) → All (λ s. read_stop (stop_value s) ≡ some s) ss
  read_stops-each [] = tt
  read_stops-each (s ∷ ss) = (read_stop-value s, read_stops-each ss)

  -- A valid definition is read back from its object.
  pub parse_definition-value :
      (js : JsNumbers N) (d : CustomColorMap N)
      → IsDefinition js d
      → parse_definition js (definition_value d) ≡ some d
  unfolding parse_definition definition_of
  parse_definition-value js d i =
      rw
        (
          i.id_fits,
          i.trimmed,
          i.label_fits,
          items-as_values (map stop_value d.stops),
          each-written read_stop stop_value d.stops (read_stops-each d.stops),
          i.stops_fit,
        )
        refl
