-- ===== src/Preset.antt =====
-- frontend/src/lib/paraviewPreset.ts: color map presets of ParaView. What JSON.parse makes of the text
-- is an input, `none` where it throws; JSON.stringify and TextEncoder are parameters, and so are the
-- operators of numbers.
pub mod Ids
pub mod Accepted
mod Tests
use Prim.Native.String.{String}
use my_paraview_web.Common.{
  ℕ, zero, suc, ◌+◌, ◌-◌, ◌*◌, ◌/◌, ◌%◌, Bool, true, false, not, ◌&&◌, ◌||◌, Option, none, some,
  List, [], ◌∷◌, ◌++◌, map, any, is_empty, length, take, drop, ltb, ◌==◌, if◌then◌else◌, get_or,
  get_elem?, for_from,
}
use my_paraview_web.Common.Eq.{Text, ◌===◌, String_eq}
use my_paraview_web.Common.Result.{Result, ok, err, ◌>>=◌, ◌>>◌, throw_if}
use my_paraview_web.Csv.Points.{trim}
use my_paraview_web.Json.{
  Value, Values, Members, undefined, null, boolean, number, text, array, object, no_values,
  value_then, no_members, member, items, property, JsNumbers,
}
use my_paraview_web.ColorMap.{ColorMapError, Stop, CustomColorMap, max_custom_color_map_stops}
use my_paraview_web.ColorMap.Definition.{Maps}
use my_paraview_web.ColorMap.Registry.{register_custom_color_map}
use my_paraview_web.Preset.Ids.{preset_id}

pub data PresetError : Type 0 where
  not_json empty_array not_object bad_numbers bad_rgb too_few too_many no_range : PresetError
  same_position bad_name registry_full : PresetError
  refused : ColorMapError → PresetError

-- An entry of RGBPoints.
pub record Entry (N : Type 0) : Type 0 where
  pub scalar : N
  pub rgb : List N

module _ {N : Type 0} where
  -- `presetObject`: the members of the first object, through arrays and through Presets
  unfoldable mutual
    pub preset_object : Value N → Result PresetError (Members N)
    preset_object (array vs) = preset_first vs
    preset_object (object m) = preset_members m m
    preset_object _ = err not_object

    pub preset_first : Values N → Result PresetError (Members N)
    preset_first no_values = err empty_array
    preset_first (value_then v vs) = preset_object v

    pub preset_members : Members N → Members N → Result PresetError (Members N)
    preset_members no_members whole = ok whole
    preset_members (member key v rest) whole =
        let presets = preset_or v whole in
        let later = preset_members rest whole in if key === "Presets" then presets else later

    pub preset_or : Value N → Members N → Result PresetError (Members N)
    preset_or (array vs) whole = preset_first vs
    preset_or _ whole = ok whole

  -- `object.Name ?? object.name`
  abbrev pub or_other : Value N → Value N → Value N
  or_other undefined other = other
  or_other null other = other
  or_other v other = v

  abbrev pub name_of : Value N → Result PresetError Text
  name_of (text t) =
      if is_empty (trim t) || ltb 200 (length (trim t)) then err bad_name else ok (trim t)
  name_of _ = err bad_name

-- `-` and `/` of numbers, beside the operators of `JsNumbers`.
module _ {N : Type 0} (js : JsNumbers N) (minus divide : N → N → N) where
  pub finite_numbers : List (Value N) → Result PresetError (List N)
  finite_numbers [] = ok []
  finite_numbers (number n ∷ rest) =
      throw_if (not (js.is_finite n)) bad_numbers >> (finite_numbers rest >>= λ ns. ok (n ∷ ns))
  finite_numbers (_ ∷ rest) = err bad_numbers

  abbrev pub numeric_array : Value N → Result PresetError (List N)
  numeric_array (array vs) = finite_numbers (items vs)
  numeric_array _ = err bad_numbers

  -- `validateRgb`
  abbrev pub validate_rgb : List N → Result PresetError (List N)
  validate_rgb rgb =
      throw_if (any (λ c. js.less c (js.literal 0) || js.less (js.literal 1) c) rgb) bad_rgb
      >> ok rgb

  -- The entries of four values each, `n` of them
  unfoldable pub entries_of : ℕ → List N → Result PresetError (List (Entry N))
  entries_of zero values = ok []
  entries_of (suc n) [] = ok []
  entries_of (suc n) (scalar ∷ rest) = do
    rgb ← validate_rgb (take 3 rest)
    later ← entries_of n (drop 3 rest)
    ok (record { scalar = scalar; rgb = rgb } ∷ later)

  -- `sort((left, right) => left.scalar - right.scalar)`, which is stable
  unfoldable pub insert_entry : Entry N → List (Entry N) → List (Entry N)
  insert_entry e [] = e ∷ []
  insert_entry e (f ∷ fs) =
      let later = insert_entry e fs in if js.less f.scalar e.scalar then f ∷ later else e ∷ (f ∷ fs)

  unfoldable pub sort_entries : List (Entry N) → List (Entry N)
  unfolding insert_entry
  sort_entries [] = []
  sort_entries (e ∷ es) = insert_entry e (sort_entries es)

  unfoldable pub last_scalar : N → List (Entry N) → N
  last_scalar n [] = n
  last_scalar n (e ∷ es) = last_scalar e.scalar es

  -- whether an entry has the scalar of the one in front of it
  unfoldable pub has_repeated : List (Entry N) → Bool
  has_repeated [] = false
  has_repeated (e ∷ []) = false
  has_repeated (e ∷ (f ∷ rest)) = js.equal f.scalar e.scalar || has_repeated (f ∷ rest)

  unfoldable pub spread_of : List (Entry N) → Result PresetError (List (Stop N))
  unfolding last_scalar has_repeated
  spread_of [] = ok []
  spread_of (e ∷ es) = do
    let maximum = last_scalar e.scalar es
    throw_if (js.equal e.scalar maximum) no_range
    throw_if (has_repeated (e ∷ es)) same_position
    ok (
        map
          (λ f. record {
            position = divide (minus f.scalar e.scalar) (minus maximum e.scalar);
            rgb = f.rgb;
          })
          (e ∷ es))

  -- `rgbPointStops`
  unfoldable pub rgb_point_stops : Value N → Result PresetError (List (Stop N))
  unfolding finite_numbers entries_of sort_entries spread_of
  rgb_point_stops value = do
    values ← numeric_array value
    throw_if (ltb (length values) 8 || not (length values % 4 == 0)) too_few
    throw_if (ltb max_custom_color_map_stops (length values / 4)) too_many
    entries ← entries_of (length values / 4) values
    spread_of (sort_entries entries)

  -- The stops of three values each, `n` of them from `index`, of `count` in all
  unfoldable pub indexed_from : ℕ → ℕ → ℕ → List N → Result PresetError (List (Stop N))
  indexed_from zero index count values = ok []
  indexed_from (suc n) index count values = do
    rgb ← validate_rgb (take 3 values)
    later ← indexed_from n (index + 1) count (drop 3 values)
    ok (record { position = divide (js.literal index) (js.literal (count - 1)); rgb = rgb } ∷ later)

  -- `indexedColorStops`
  unfoldable pub indexed_color_stops : Value N → Result PresetError (List (Stop N))
  unfolding finite_numbers indexed_from
  indexed_color_stops value = do
    values ← numeric_array value
    throw_if (ltb (length values) 6 || not (length values % 3 == 0)) too_few
    let count = length values / 3
    throw_if (ltb max_custom_color_map_stops count) too_many
    indexed_from count 0 count values

  abbrev pub stops_of : Value N → Value N → Result PresetError (List (Stop N))
  stops_of undefined colors = indexed_color_stops colors
  stops_of points colors = rgb_point_stops points

  module _ (encode : Text → List ℕ) (stringify : List (Stop N) → Text)
      (stringify_with : Text → List (Stop N) → Text) where
    abbrev pub parsed_or : Option (Value N) → Result PresetError (Members N)
    parsed_or none = err not_json
    parsed_or (some v) = preset_object v

    -- `parseParaViewColorMapPreset` of what JSON.parse gives
    unfoldable pub parse_preset : Option (Value N) → Result PresetError (CustomColorMap N)
    unfolding preset_object rgb_point_stops indexed_color_stops preset_id trim
    parse_preset parsed = do
      m ← parsed_or parsed
      label ← name_of (or_other (property (object m) "Name") (property (object m) "name"))
      stops ← stops_of (property (object m) "RGBPoints") (property (object m) "IndexedColors")
      ok (record {
        id = preset_id encode stringify stringify_with label stops;
        label = label;
        stops = stops;
      })

    -- What importing makes of what the registration gives; `none` is a loop that does not end.
    abbrev pub import_outcome :
        Maps N
        → CustomColorMap N
        → Result ColorMapError (Option (Maps N × Bool))
        → Option (Maps N × Result PresetError (CustomColorMap N))
    import_outcome r preset (err e) = some (r, err (refused e))
    import_outcome r preset (ok none) = none
    import_outcome r preset (ok (some (s, true))) = some (s, ok preset)
    import_outcome r preset (ok (some (s, false))) = some (s, err registry_full)

    abbrev pub register_parsed :
        Maps N
        → Result PresetError (CustomColorMap N)
        → Option (Maps N × Result PresetError (CustomColorMap N))
    register_parsed r (err e) = some (r, err e)
    register_parsed r (ok preset) = import_outcome r preset (
        register_custom_color_map js.is_finite js.less js.equal (js.literal 0) (js.literal 1)
          preset.id preset.label preset.stops r)

    -- `importParaViewColorMapPreset`
    unfoldable pub import_preset :
        Option (Value N) → Maps N → Option (Maps N × Result PresetError (CustomColorMap N))
    unfolding parse_preset register_custom_color_map
    import_preset parsed r = register_parsed r (parse_preset parsed)
