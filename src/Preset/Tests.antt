-- ===== src/Preset/Tests.antt =====
-- Presets on concrete objects, with natural numbers, an encoder of one byte for each character, and no
-- text of the stops.
use my_paraview_web.Common.{
  ℕ, ◌-◌, ◌/◌, ◌≤◌, ◌<◌, true, false, Option, some, List, [], ◌∷◌, ◌++◌, map, length, ltb, leb,
  ◌==◌, ◌≡◌, refl, arith, All-map, length-map,
}
use my_paraview_web.Common.Eq.{Text, codes}
use my_paraview_web.Common.Int.{pos}
use my_paraview_web.Common.Result.{Result, ok, err}
use my_paraview_web.Json.{
  Value, text, number, array, object, no_members, member, no_values, value_then, as_values,
  JsNumbers,
}
use my_paraview_web.ColorMap.{Stop, CustomColorMap, max_custom_color_map_stops}
use my_paraview_web.Preset.{PresetError, empty_array, same_position, parse_preset}
use my_paraview_web.Preset.Ids.{characters, has_unpaired_surrogate, fnv1a32, fnv1a64}
use my_paraview_web.Preset.Ids.Form.{IsEncoder}
use my_paraview_web.Preset.Ids.Surrogates.{has_unpaired_surrogate-trailing}
use my_paraview_web.Preset.Accepted.{PassesNames, parse_preset-PassesNames}

abbrev naturals : JsNumbers ℕ
naturals = record {
  is_finite = λ n. true;
  less = ltb;
  at_most = leb;
  equal = λ a b. a == b;
  integer_of = λ n. some (pos n);
  literal = λ n. n;
}

abbrev encode : Text → List ℕ
encode t = map (λ c. 97) (characters t)

characters_pos : (t : Text) → 1 ≤ length t → 1 ≤ length (characters t)
unfolding characters
characters_pos [] h = h
characters_pos (c ∷ []) h = omega arith
characters_pos (c ∷ (d ∷ rest)) h = ground arith

length-encode : (t : Text) → length (encode t) ≡ length (characters t)
length-encode t = length-map (λ c. 97) (characters t)

encode-IsEncoder : IsEncoder encode
encode-IsEncoder = record {
  bytes = λ t. All-map (λ b. b < 256) (λ c. 97) (characters t) (λ c. omega arith);
  at_most_four = λ t. omega (arith, length-encode t);
  not_empty = λ t h. omega (arith, length-encode t, characters_pos t h);
}

abbrev no_text : List (Stop ℕ) → Text
no_text stops = []

abbrev no_text_with : Text → List (Stop ℕ) → Text
no_text_with label stops = label

abbrev preset_of : List ℕ → Value ℕ
preset_of points = array (
    value_then
      (object (
        member "Name" (text (codes " ab "))
          (member "RGBPoints" (array (as_values (map number points))) no_members)))
      no_values)

abbrev two_stops : List (Stop ℕ)
two_stops =
    record { position = 0; rgb = 0 ∷ 0 ∷ 0 ∷ [] }
    ∷ record { position = 1; rgb = 1 ∷ 1 ∷ 0 ∷ [] }
    ∷ []

abbrev read_preset : Option (Value ℕ) → Result PresetError (CustomColorMap ℕ)
read_preset = parse_preset naturals (λ a b. a - b) (λ a b. a / b) encode no_text no_text_with

abbrev preset : CustomColorMap ℕ
preset = record { id = codes "custom:aa:ztntfp"; label = codes "ab"; stops = two_stops }

-- The entries are sorted, and their positions scaled.
preset_is_read : read_preset (some (preset_of (7 ∷ 1 ∷ 1 ∷ 0 ∷ 5 ∷ 0 ∷ 0 ∷ 0 ∷ []))) ≡ ok preset
unfolding parse_preset
preset_is_read = refl

repeated_scalar :
    read_preset (some (preset_of (5 ∷ 0 ∷ 0 ∷ 0 ∷ 7 ∷ 0 ∷ 0 ∷ 0 ∷ 7 ∷ 1 ∷ 1 ∷ 0 ∷ [])))
    ≡ err same_position
unfolding parse_preset
repeated_scalar = refl

no_preset : read_preset (some (array no_values)) ≡ err empty_array
unfolding parse_preset
no_preset = refl

-- The known hashes of the text a.
known_hashes :
    (fnv1a32 (codes "a") ≡ codes "1r9wi7g") × (fnv1a64 (codes "a") ≡ codes "2o0ongoiv4rrg")
unfolding fnv1a32 fnv1a64
known_hashes = (refl, refl)

parse_preset-PassesNames_example :
    (2 ≤ 2)
    × (2 ≤ max_custom_color_map_stops)
    × PassesNames naturals (λ a b. a - b) (λ a b. a / b) encode no_text no_text_with preset
parse_preset-PassesNames_example =
    parse_preset-PassesNames naturals (λ a b. a - b) (λ a b. a / b) encode no_text no_text_with
      encode-IsEncoder (some (preset_of (7 ∷ 1 ∷ 1 ∷ 0 ∷ 5 ∷ 0 ∷ 0 ∷ 0 ∷ []))) {preset = preset}
      preset_is_read

has_unpaired_surrogate-trailing_example : has_unpaired_surrogate (codes "ab" ++ 0xd800 ∷ []) ≡ false
has_unpaired_surrogate-trailing_example =
    has_unpaired_surrogate-trailing (codes "ab") 0xd800 refl refl
