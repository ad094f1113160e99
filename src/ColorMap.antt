-- ===== src/ColorMap.antt =====
-- The registry of color maps, frontend/src/lib/colormap.ts. The module's variables are the fields of
-- `Registry`; a text is the list of its code units. A number is of a type `N`, of which the
-- operators of the language are parameters.
pub mod Definition
pub mod Registry
mod Tests
use my_paraview_web.Common.{
  ℕ, zero, suc, ◌+◌, ◌-◌, Bool, true, false, not, ◌&&◌, ◌||◌, Option, none, some, List, [], ◌∷◌,
  ◌++◌, map, filter, find?, any, all, is_empty, length, ltb, leb, take, drop, if◌then◌else◌, ◌==◌,
}
use my_paraview_web.Common.Eq.{◌===◌, Units_eq}
use my_paraview_web.Common.Result.{Result, ok, err, ◌>>=◌, ◌>>◌, throw_if}

abbrev pub Name : Type 0
Name = List ℕ

-- `MAX_CUSTOM_COLOR_MAP_STOPS` and `MAX_REGISTERED_CUSTOM_COLOR_MAPS`
abbrev pub max_custom_color_map_stops : ℕ
max_custom_color_map_stops = 4096

abbrev pub max_registered_custom_color_maps : ℕ
max_registered_custom_color_maps = 64

pub data ColorMapError : Type 0 where
  wrong_stop_count bad_stop bad_ends not_increasing bad_id bad_label : ColorMapError

-- The rgb of an untrusted stop is a list of any length.
pub record Stop (N : Type 0) : Type 0 where
  pub position : N
  pub rgb : List N

-- `CustomColorMapDefinition`
pub record CustomColorMap (N : Type 0) : Type 0 where
  pub id : Name
  pub label : List ℕ
  pub stops : List (Stop N)

abbrev pub between : ℕ → ℕ → ℕ → Bool
between low high c = leb low c && leb c high

-- `[a-z0-9]` and `[A-Za-z0-9_.!~*'()%-]`
unfoldable pub is_lower_digit : ℕ → Bool
is_lower_digit c = between b'a' b'z' c || between b'0' b'9' c

unfoldable pub is_id_char : ℕ → Bool
is_id_char c =
    between b'A' b'Z' c
    || (is_lower_digit c
        || any (λ k. k == c)
            (b'_' ∷ b'.' ∷ b'!' ∷ b'~' ∷ b'*' ∷ 39 ∷ b'(' ∷ b')' ∷ b'%' ∷ b'-' ∷ []))

-- What follows the second colon: one to sixteen characters.
unfoldable pub is_id_suffix : List ℕ → Bool
is_id_suffix s = leb 1 (length s) && (leb (length s) 16 && all is_lower_digit s)

-- The middle part and the suffix; no character of the middle part is a colon.
unfoldable pub is_id_rest : Bool → List ℕ → Bool
is_id_rest seen [] = false
is_id_rest seen (c ∷ cs) =
    let rest = is_id_rest true cs in
    if c == b':' then seen && is_id_suffix cs else is_id_char c && rest

-- `custom:`
abbrev pub custom_prefix : Name
custom_prefix = b'c' ∷ b'u' ∷ b's' ∷ b't' ∷ b'o' ∷ b'm' ∷ b':' ∷ []

-- `CUSTOM_COLOR_MAP_ID.test(id)`
unfoldable pub is_custom_id : Name → Bool
unfolding is_lower_digit is_id_char is_id_suffix is_id_rest
is_custom_id id = take 7 id === custom_prefix && is_id_rest false (drop 7 id)

module _ {N : Type 0} (is_finite : N → Bool) (less equal : N → N → Bool)
    (zero_value one_value : N) where
  -- `!Number.isFinite(v) || v < 0 || v > 1`
  abbrev pub outside_unit : N → Bool
  outside_unit v = not (is_finite v) || (less v zero_value || less one_value v)

  abbrev pub is_bad_stop : Stop N → Bool
  is_bad_stop s = outside_unit s.position || (not (length s.rgb == 3) || any outside_unit s.rgb)

  pub not_increasing_in : List (Stop N) → Bool
  not_increasing_in [] = false
  not_increasing_in (s ∷ []) = false
  not_increasing_in (s ∷ t ∷ rest) =
      not (less s.position t.position) || not_increasing_in (t ∷ rest)

  pub last_is_one : List (Stop N) → Bool
  last_is_one [] = false
  last_is_one (s ∷ []) = equal s.position one_value
  last_is_one (s ∷ t ∷ rest) = last_is_one (t ∷ rest)

  abbrev pub first_is_zero : List (Stop N) → Bool
  first_is_zero [] = false
  first_is_zero (s ∷ _) = equal s.position zero_value

  unfoldable pub validated_stops : List (Stop N) → Result ColorMapError (List (Stop N))
  unfolding not_increasing_in last_is_one
  validated_stops stops = do
    throw_if (ltb (length stops) 2 || ltb max_custom_color_map_stops (length stops))
        wrong_stop_count
    throw_if (any is_bad_stop stops) bad_stop
    throw_if (not (first_is_zero stops) || not (last_is_one stops)) bad_ends
    throw_if (not_increasing_in stops) not_increasing
    ok stops
