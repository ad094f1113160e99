-- ===== src/ColorMap/Definition.antt =====
-- The definitions of custom color maps that are stored with a view, frontend/src/lib/colormap.ts:
-- reading one from an untrusted value, looking one up in the registry, and comparing two.
pub mod Laws
use Prim.Native.String.{String}
use my_paraview_web.Common.{
  ℕ, Bool, true, false, not, ◌&&◌, ◌||◌, Option, none, some, List, [], ◌∷◌, any, all, find?, length,
  ltb, is_empty, take, ◌==◌, if◌then◌else◌,
}
use my_paraview_web.Common.Eq.{Text, ◌===◌, Units_eq}
use my_paraview_web.Common.Result.{Result, ok, err}
use my_paraview_web.Csv.Points.{trim}
use my_paraview_web.Json.{
  Value, Members, array, object, JsNumbers, property, has_only, text_of, number_of, array_of,
}
use my_paraview_web.Json.Steps.{◌>>=◌, ◌>>◌, refuse_if, each}
use my_paraview_web.ColorMap.{
  Name, ColorMapError, Stop, CustomColorMap, custom_prefix, is_custom_id, validated_stops,
}
use my_paraview_web.ColorMap.Registry.{Registry, Label, Stored}

-- `CUSTOM_LABELS` holds texts here, and `MAPS` lists of stops.
abbrev pub Maps : Type 0 → Type 0
Maps N = Registry Text (List (Stop N))

-- `id.startsWith("custom:")`
abbrev pub is_custom : Name → Bool
is_custom id = take 7 id === custom_prefix

-- `hasColorMap`
unfoldable pub has_color_map : {N : Type 0} → Name → Maps N → Bool
has_color_map id r = any (λ s. s.name === id) r.maps

abbrev pub caught : {A : Type 0} → Result ColorMapError A → Option A
caught (ok a) = some a
caught (err e) = none

module _ {N : Type 0} where
  -- What `stops.some` refuses; the fields that validatedStops refuses are read as `none`.
  unfoldable pub read_stop : Value N → Option (Stop N)
  read_stop (object m) = do
    refuse_if (not (has_only m ("position" ∷ "rgb" ∷ [])))
    position ← number_of (property (object m) "position")
    channels ← array_of (property (object m) "rgb")
    rgb ← each number_of channels
    some (record { position = position; rgb = rgb })
  read_stop _ = none

  pub lookup_stops : Option (Stored (List (Stop N))) → Name → Text → Option (CustomColorMap N)
  lookup_stops none id label = none
  lookup_stops (some s) id label =
      if is_empty label then none else some (record { id = id; label = label; stops = s.stops })

  pub lookup_label : Option (Label Text) → Name → Maps N → Option (CustomColorMap N)
  lookup_label none id r = none
  lookup_label (some l) id r = lookup_stops (find? (λ s. s.name === id) r.maps) id l.label

  -- `customColorMapDefinition`
  unfoldable pub custom_color_map_definition : Name → Maps N → Option (CustomColorMap N)
  unfolding lookup_label lookup_stops
  custom_color_map_definition id r = do
    refuse_if (not (is_custom id) || not (any (λ s. s.name === id) r.maps))
    lookup_label (find? (λ l. l.id === id) r.labels) id r

module _ {N : Type 0} (js : JsNumbers N) where
  -- `stop.rgb.every((channel, i) => channel === right[i])`
  pub same_channels : List N → List N → Bool
  same_channels [] _ = true
  same_channels (c ∷ cs) [] = false
  same_channels (c ∷ cs) (d ∷ ds) = js.equal c d && same_channels cs ds

  pub same_stops : List (Stop N) → List (Stop N) → Bool
  same_stops [] [] = true
  same_stops (s ∷ ss) (t ∷ ts) =
      (js.equal s.position t.position && same_channels s.rgb t.rgb) && same_stops ss ts
  same_stops _ _ = false

  -- `customColorMapDefinitionsEqual`
  unfoldable pub definitions_equal : CustomColorMap N → CustomColorMap N → Bool
  unfolding same_channels same_stops
  definitions_equal l r = l.id === r.id && (l.label === r.label && same_stops l.stops r.stops)

  -- `validatedStops`, its exception caught
  abbrev pub checked_stops : List (Stop N) → Option (List (Stop N))
  checked_stops stops =
      caught (validated_stops js.is_finite js.less js.equal (js.literal 0) (js.literal 1) stops)

  unfoldable pub definition_of : Members N → Option (CustomColorMap N)
  unfolding read_stop
  definition_of m = do
    refuse_if (not (has_only m ("id" ∷ "label" ∷ "stops" ∷ [])))
    id ← text_of (property (object m) "id")
    refuse_if (ltb 1024 (length id) || not (is_custom_id id))
    given ← text_of (property (object m) "label")
    refuse_if (is_empty (trim given) || ltb 200 (length (trim given)))
    values ← array_of (property (object m) "stops")
    read ← each read_stop values
    stops ← checked_stops read
    some (record { id = id; label = trim given; stops = stops })

  -- `parseCustomColorMapDefinition`
  unfoldable pub parse_definition : Value N → Option (CustomColorMap N)
  unfolding definition_of
  parse_definition (object m) = definition_of m
  parse_definition _ = none
