-- ===== src/ColorMap/Definition/Laws.antt =====
-- An embedded definition that parseCustomColorMapDefinition of frontend/src/lib/colormap.ts accepts
-- and its registration.
use my_paraview_web.Common.{
  ◌≡◌, refl, sym, ap, subst, false, ◌||◌, any, some, List, [], ◌∷◌, ltb, not, is_empty, length,
  some_injective,
}
use my_paraview_web.Common.Result.{Result, ok, err, throw_if-passed, ok-injective}
use my_paraview_web.Csv.Points.{trim}
use my_paraview_web.Csv.Points.Trim.{trim-trim}
use my_paraview_web.Json.{Value, Members, object, has_only, property, text_of, array_of, JsNumbers}
use my_paraview_web.Json.Steps.{each, >>=-eq-some, refuse_if-passed}
use my_paraview_web.ColorMap.{
  ColorMapError, Stop, CustomColorMap, is_custom_id, is_bad_stop, wrong_stop_count, bad_stop,
  bad_ends, not_increasing, max_custom_color_map_stops, validated_stops,
}
use my_paraview_web.ColorMap.Definition.{
  read_stop, Maps, caught, checked_stops, definition_of, parse_definition,
}
use my_paraview_web.ColorMap.Registry.{register, register_custom_color_map}

caught-ok : {A : Type 0} (m : Result ColorMapError A) (a : A) → caught m ≡ some a → m ≡ ok a
caught-ok (ok b) a h = ap ok (some_injective h)
caught-ok (err e) a h = cc

module _ {N : Type 0} (js : JsNumbers N) where
  -- What an accepted definition has passed, with the label trimmed already.
  pub record IsDefinition (d : CustomColorMap N) : Type 0 where
    pub id_fits : (ltb 1024 (length d.id) || not (is_custom_id d.id)) ≡ false
    pub label_fits : (is_empty d.label || ltb 200 (length d.label)) ≡ false
    pub trimmed : trim d.label ≡ d.label
    pub stops_fit : checked_stops js d.stops ≡ some d.stops

  -- Validation hands back the stops that it was given.
  checked_stops-same : (s t : List (Stop N)) → checked_stops js s ≡ some t → t ≡ s
  unfolding validated_stops
  checked_stops-same s t h =
      let bad = is_bad_stop js.is_finite js.less js.equal (js.literal 0) (js.literal 1) in
      let (_, h1) =
        throw_if-passed (ltb (length s) 2 || ltb max_custom_color_map_stops (length s))
          wrong_stop_count _ (caught-ok _ t h) in
      let (_, h2) = throw_if-passed (any bad s) bad_stop _ h1 in
      let (_, h3) = throw_if-passed _ bad_ends _ h2 in
      let (_, h4) = throw_if-passed _ not_increasing _ h3 in sym (ok-injective h4)

  definition_of-IsDefinition :
      (m : Members N) (d : CustomColorMap N) → definition_of js m ≡ some d → IsDefinition d
  unfolding definition_of
  definition_of-IsDefinition m d h =
      let (_, h1) = refuse_if-passed (not (has_only m ("id" ∷ "label" ∷ "stops" ∷ []))) _ h in
      let (_, _, h2) = >>=-eq-some (text_of (property (object m) "id")) _ h1 in
      let (id_fits, h3) = refuse_if-passed _ _ h2 in
      let (given, _, h4) = >>=-eq-some (text_of (property (object m) "label")) _ h3 in
      let (label_fits, h5) = refuse_if-passed _ _ h4 in
      let (values, _, h6) = >>=-eq-some (array_of (property (object m) "stops")) _ h5 in
      let (read, _, h7) = >>=-eq-some (each read_stop values) _ h6 in
      let (stops, stops_fit, h8) = >>=-eq-some _ _ h7 in
      subst IsDefinition (some_injective h8) (record {
        id_fits = id_fits;
        label_fits = label_fits;
        trimmed = trim-trim given;
        stops_fit =
            subst (λ k. checked_stops js k ≡ some stops)
              (sym (checked_stops-same read stops stops_fit)) stops_fit;
      })

  -- An accepted definition is one that a registration accepts too.
  pub parse_definition-IsDefinition :
      (v : Value N) (d : CustomColorMap N) → parse_definition js v ≡ some d → IsDefinition d
  unfolding parse_definition
  parse_definition-IsDefinition (object m) d h = definition_of-IsDefinition m d h
  parse_definition-IsDefinition _ d h = cc

  -- A definition that was accepted passes every check of its registration.
  pub register_custom-IsDefinition :
      (d : CustomColorMap N) (r : Maps N)
      → IsDefinition d
      → register_custom_color_map js.is_finite js.less js.equal
          (js.literal 0)
          (js.literal 1)
          d.id
          d.label
          d.stops
          r
        ≡ ok (register d.id d.label d.stops r)
  unfolding register_custom_color_map
  register_custom-IsDefinition d r i =
      rw (i.id_fits, i.trimmed, i.label_fits, caught-ok _ d.stops i.stops_fit) refl
