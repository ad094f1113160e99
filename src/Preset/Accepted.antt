-- ===== src/Preset/Accepted.antt =====
-- A preset that is read, at its registration.
use my_paraview_web.Common.{
  ℕ, zero, suc, ◌+◌, ◌*◌, ◌/◌, ◌%◌, ◌≤◌, true, false, not, ◌||◌, Option, List, [], ◌∷◌, length,
  length-map, length-drop, drop, take, ltb, ◌==◌, ◌≡◌, refl, sym, ◌∙◌, ap, subst, Bool-cases, inl,
  inr, arith, is_empty, neither,
}
use my_paraview_web.Common.Eq.{Text}
use my_paraview_web.Common.Result.{ok, ◌>>=◌, >>=-eq-ok, throw_if-passed, ok-injective}
use my_paraview_web.Csv.Points.{trim}
use my_paraview_web.Csv.Points.Trim.{trim-trim}
use my_paraview_web.Json.{
  Value, Members, undefined, null, boolean, number, text, array, object, property, JsNumbers,
}
use my_paraview_web.ColorMap.{
  Stop, CustomColorMap, is_custom_id, validated_stops, max_custom_color_map_stops,
}
use my_paraview_web.ColorMap.Definition.{Maps}
use my_paraview_web.ColorMap.Registry.{register, register_custom_color_map}
use my_paraview_web.Preset.{
  too_few, too_many, no_range, same_position, Entry, name_of, or_other, numeric_array, entries_of,
  insert_entry, sort_entries, spread_of, rgb_point_stops, indexed_from, indexed_color_stops,
  stops_of, validate_rgb, parsed_or, parse_preset,
}
use my_paraview_web.Preset.Ids.{preset_id}
use my_paraview_web.Preset.Ids.Form.{IsEncoder, preset_id-IsCustomId}

-- A label that is read is trimmed, and has 1 to 200 units.
name_of_lem :
    {N : Type 0} (v : Value N) {label : Text}
    → name_of v ≡ ok label
    → (trim label ≡ label) × ((is_empty label || ltb 200 (length label)) ≡ false)
name_of_lem (text t) {label} h =
    elim (Bool-cases (is_empty (trim t) || ltb 200 (length (trim t)))) [
      | inl bad ↦ let q = rw bad at h in cc
      | inr good ↦
          let q = rw good at h in
          let same : trim t ≡ label = ok-injective q in rw (← same) (trim-trim t, good)
    ]
name_of_lem undefined h = cc
name_of_lem null h = cc
name_of_lem (boolean b) h = cc
name_of_lem (number n) h = cc
name_of_lem (array vs) h = cc
name_of_lem (object m) h = cc

abbrev given_name : {N : Type 0} → Members N → Value N
given_name m = or_other (property (object m) "Name") (property (object m) "name")

module _ {N : Type 0} (js : JsNumbers N) (minus divide : N → N → N) where
  length-entries_of :
      (n : ℕ) (values : List N) {es : List (Entry N)}
      → 4 * n ≤ length values
      → entries_of js minus divide n values ≡ ok es
      → length es ≡ n
  unfolding entries_of
  length-entries_of zero values k h = let e = ap length (sym (ok-injective h)) in omega arith
  length-entries_of (suc n) [] k h = absurd (omega arith)
  length-entries_of (suc n) (v ∷ vs) k h =
      let (rgb, _, h1) = >>=-eq-ok (validate_rgb js minus divide (take 3 vs)) _ h in
      let (later, h2, h3) = >>=-eq-ok (entries_of js minus divide n (drop 3 vs)) _ h1 in
      let ih = length-entries_of n (drop 3 vs) (omega (arith, length-drop 3 vs)) h2 in
      let e = ap length (sym (ok-injective h3)) in omega arith

  length-insert_entry :
      (e : Entry N) (es : List (Entry N))
      → length (insert_entry js minus divide e es) ≡ suc (length es)
  unfolding insert_entry
  length-insert_entry e [] = refl
  length-insert_entry e (f ∷ fs) = elim (Bool-cases (js.less f.scalar e.scalar)) [
    | inl t ↦ rw t (ap suc (length-insert_entry e fs))
    | inr n ↦ rw n refl
  ]

  length-sort_entries : (es : List (Entry N)) → length (sort_entries js minus divide es) ≡ length es
  unfolding sort_entries
  length-sort_entries [] = refl
  length-sort_entries (e ∷ es) =
      length-insert_entry e (sort_entries js minus divide es) ∙ ap suc (length-sort_entries es)

  length-spread_of :
      (es : List (Entry N)) {stops : List (Stop N)}
      → spread_of js minus divide es ≡ ok stops
      → length stops ≡ length es
  unfolding spread_of
  length-spread_of [] h = ap length (sym (ok-injective h))
  length-spread_of (e ∷ es) h =
      let (_, h1) = throw_if-passed _ no_range _ h in
      let (_, h2) = throw_if-passed _ same_position _ h1 in
      ap length (sym (ok-injective h2)) ∙ ap suc (length-map _ es)

  length-indexed_from :
      (n index count : ℕ) (values : List N) {stops : List (Stop N)}
      → indexed_from js minus divide n index count values ≡ ok stops
      → length stops ≡ n
  unfolding indexed_from
  length-indexed_from zero index count values h =
      let e = ap length (sym (ok-injective h)) in omega arith
  length-indexed_from (suc n) index count values h =
      let (rgb, _, h1) = >>=-eq-ok (validate_rgb js minus divide (take 3 values)) _ h in
      let (later, h2, h3) =
        >>=-eq-ok (indexed_from js minus divide n (index + 1) count (drop 3 values)) _ h1 in
      let ih = length-indexed_from n (index + 1) count (drop 3 values) h2 in
      let e = ap length (sym (ok-injective h3)) in omega arith

  abbrev HasStops : List (Stop N) → Type 0
  HasStops stops = (2 ≤ length stops) × (length stops ≤ max_custom_color_map_stops)

  rgb_point_stops-HasStops :
      (v : Value N) {stops : List (Stop N)}
      → rgb_point_stops js minus divide v ≡ ok stops
      → HasStops stops
  unfolding rgb_point_stops
  rgb_point_stops-HasStops v h =
      let (values, _, h1) = >>=-eq-ok (numeric_array js minus divide v) _ h in
      let (enough, h2) =
        throw_if-passed (ltb (length values) 8 || not (length values % 4 == 0)) too_few _ h1 in
      let (few, h3) =
        throw_if-passed (ltb max_custom_color_map_stops (length values / 4)) too_many _ h2 in
      let (entries, h4, h5) =
        >>=-eq-ok (entries_of js minus divide (length values / 4) values) _ h3 in
      let count = length-entries_of (length values / 4) values (omega arith) h4 in
      let sorted = length-sort_entries entries in
      let same = length-spread_of (sort_entries js minus divide entries) h5 in
      let (eight, _) = neither (ltb (length values) 8) (not (length values % 4 == 0)) enough in
      (ground arith, ground arith)

  indexed_color_stops-HasStops :
      (v : Value N) {stops : List (Stop N)}
      → indexed_color_stops js minus divide v ≡ ok stops
      → HasStops stops
  unfolding indexed_color_stops
  indexed_color_stops-HasStops v h =
      let (values, _, h1) = >>=-eq-ok (numeric_array js minus divide v) _ h in
      let (enough, h2) =
        throw_if-passed (ltb (length values) 6 || not (length values % 3 == 0)) too_few _ h1 in
      let (few, h3) =
        throw_if-passed (ltb max_custom_color_map_stops (length values / 3)) too_many _ h2 in
      let count = length-indexed_from (length values / 3) 0 (length values / 3) values h3 in
      let (six, _) = neither (ltb (length values) 6) (not (length values % 3 == 0)) enough in
      (ground arith, ground arith)

  stops_of-HasStops :
      (points colors : Value N) {stops : List (Stop N)}
      → stops_of js minus divide points colors ≡ ok stops
      → HasStops stops
  stops_of-HasStops undefined colors h = indexed_color_stops-HasStops colors h
  stops_of-HasStops null colors h = rgb_point_stops-HasStops null h
  stops_of-HasStops (boolean b) colors h = rgb_point_stops-HasStops (boolean b) h
  stops_of-HasStops (number n) colors h = rgb_point_stops-HasStops (number n) h
  stops_of-HasStops (text t) colors h = rgb_point_stops-HasStops (text t) h
  stops_of-HasStops (array vs) colors h = rgb_point_stops-HasStops (array vs) h
  stops_of-HasStops (object m) colors h = rgb_point_stops-HasStops (object m) h

  module _ (encode : Text → List ℕ) (stringify : List (Stop N) → Text)
      (stringify_with : Text → List (Stop N) → Text) where
    -- What the registration of a definition comes to, once its id and its label have passed.
    abbrev pub PassesNames : CustomColorMap N → Type 0
    PassesNames d =
        (r : Maps N)
        → register_custom_color_map js.is_finite js.less js.equal (js.literal 0) (js.literal 1) d.id
            d.label d.stops r
          ≡ (validated_stops js.is_finite js.less js.equal (js.literal 0) (js.literal 1) d.stops
              >>= λ stops. ok (register d.id d.label stops r))

    passes_names :
        (d : CustomColorMap N)
        → length d.id ≤ 1024
        → is_custom_id d.id ≡ true
        → trim d.label ≡ d.label
        → (is_empty d.label || ltb 200 (length d.label)) ≡ false
        → PassesNames d
    unfolding register_custom_color_map
    passes_names d short form trimmed label r =
        let fits : (ltb 1024 (length d.id) || not (is_custom_id d.id)) ≡ false =
          rw form (ground arith) in
        rw (fits, trimmed, label) refl

    -- A preset that is read has 2 to 4096 stops, and is never refused by the registry for its id, which
    -- is made from its label and stops, or for its label: only its stops are tested still.
    pub parse_preset-PassesNames :
        IsEncoder encode
        → (parsed : Option (Value N)) {preset : CustomColorMap N}
        → parse_preset js minus divide encode stringify stringify_with parsed ≡ ok preset
        → (2 ≤ length preset.stops)
          × (length preset.stops ≤ max_custom_color_map_stops)
          × PassesNames preset
    unfolding parse_preset
    parse_preset-PassesNames enc parsed {preset} h =
        let (m, _, h1) =
          >>=-eq-ok (parsed_or js minus divide encode stringify stringify_with parsed) _ h in
        let (label, named, h2) = >>=-eq-ok (name_of (given_name m)) _ h1 in
        let (stops, read, h3) =
          >>=-eq-ok
            (stops_of js minus divide (property (object m) "RGBPoints")
              (property (object m) "IndexedColors"))
            _ h2 in
        let (trimmed, fits) = name_of_lem (given_name m) named in
        let (low, high) = stops_of-HasStops _ _ read in
        let (some_label, _) = neither (is_empty label) (ltb 200 (length label)) fits in
        let (short, form) =
          preset_id-IsCustomId encode stringify stringify_with enc label stops some_label in
        let this : CustomColorMap N = record {
          id = preset_id encode stringify stringify_with label stops;
          label = label;
          stops = stops;
        } in
        subst
          (λ (d : CustomColorMap N).
            (2 ≤ length d.stops) × (length d.stops ≤ max_custom_color_map_stops) × PassesNames d)
          (ok-injective h3) (low, high, passes_names this short form trimmed fits)
