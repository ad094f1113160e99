-- ===== src/ColorMap/Registry.antt =====
-- `registerCustomColorMap` with its eviction, `retainColorMap` and the lookups of
-- frontend/src/lib/colormap.ts, on the names `Name` of color maps, the labels and the stops.

pub mod Keyed
pub mod Room
pub mod Laws
pub mod Known
use my_paraview_web.Common.{
  ℕ, zero, suc, ◌+◌, ◌-◌, Bool, true, false, not, ◌&&◌, ◌||◌, Option, none, some, List, [], ◌∷◌,
  ◌++◌, filter, find?, any, is_empty, length, ltb, leb, if◌then◌else◌,
}
use my_paraview_web.Common.Eq.{◌===◌, Units_eq}
use my_paraview_web.Common.Result.{Result, ok, err, ◌>>=◌, ◌>>◌, throw_if}
use my_paraview_web.Csv.Points.{trim}
use my_paraview_web.ColorMap.{
  Name, ColorMapError, bad_id, bad_label, Stop, is_custom_id, validated_stops,
  max_registered_custom_color_maps,
}

pub record Label (L : Type 0) : Type 0 where
  pub id : Name
  pub label : L

pub record Stored (S : Type 0) : Type 0 where
  pub name : Name
  pub stops : S

pub record Retained : Type 0 where
  pub id : Name
  pub count : ℕ

pub record Registry (L S : Type 0) : Type 0 where
  -- `CUSTOM_LABELS` in the order of insertion
  pub labels : List (Label L)
  -- `MAPS`
  pub maps : List (Stored S)
  -- `RETAINED_CUSTOM_COLOR_MAPS`
  pub retained : List Retained
  -- `customColorMapRegistryVersion`
  pub version : ℕ

-- `RETAINED_CUSTOM_COLOR_MAPS.has(id)`
abbrev pub is_retained : List Retained → Name → Bool
is_retained retained id = any (λ r. r.id === id) retained

pub data Eviction (L S : Type 0) : Type 0 where
  done : Registry L S → Eviction L S
  full : Registry L S → Eviction L S
  out_of_fuel : Eviction L S

abbrev pub has_label : {L : Type 0} → List (Label L) → Name → Bool
has_label labels id = any (λ l. l.id === id) labels

abbrev pub delete_label : {L : Type 0} → List (Label L) → Name → List (Label L)
delete_label labels id = filter (λ l. not (l.id === id)) labels

abbrev pub delete_map : {S : Type 0} → List (Stored S) → Name → List (Stored S)
delete_map maps name = filter (λ m. not (m.name === name)) maps

abbrev pub retained_count : List Retained → Name → ℕ → ℕ
retained_count [] id fallback = fallback
retained_count (r ∷ rs) id fallback = if r.id === id then r.count else retained_count rs id fallback

-- `Map.set` of a count
pub set_count : List Retained → Name → ℕ → List Retained
set_count [] id n = record { id = id; count = n } ∷ []
set_count (r ∷ rs) id n =
    if r.id === id then record { id = id; count = n } ∷ rs else r ∷ set_count rs id n

module _ {L S : Type 0} where
  -- the oldest that no viewer retains
  abbrev pub oldest_unused : Registry L S → Option (Label L)
  oldest_unused r = find? (λ l. not (is_retained r.retained l.id)) r.labels

  -- a round of the loop, with the rest of the loop
  pub evict_one : (Registry L S → Eviction L S) → Option (Label L) → Registry L S → Eviction L S
  evict_one rest none r = full r
  evict_one rest (some l) r =
      rest (record r { labels = delete_label r.labels l.id; maps = delete_map r.maps l.id })

  -- `while (CUSTOM_LABELS.size >= MAX_REGISTERED_CUSTOM_COLOR_MAPS)`
  pub evict : ℕ → Registry L S → Eviction L S
  evict zero r = out_of_fuel
  evict (suc fuel) r =
      if leb max_registered_custom_color_maps (length r.labels)
      then evict_one (evict fuel) (oldest_unused r) r
      else done r

  -- `if (CUSTOM_LABELS.has(id)) CUSTOM_LABELS.delete(id)`
  abbrev pub without_label : Name → Registry L S → Registry L S
  without_label id r =
      if has_label r.labels id then record r { labels = delete_label r.labels id } else r

  pub store : Name → L → S → Eviction L S → Option (Registry L S × Bool)
  store id label stops (done r) = some (
    record r {
      labels = r.labels ++ record { id = id; label = label } ∷ [];
      maps = delete_map r.maps id ++ record { name = id; stops = stops } ∷ [];
      version = r.version + 1;
    },
    true,
  )
  store id label stops (full r) = some (r, false)
  store id label stops out_of_fuel = none

  -- From the validated stops on; `none` is a loop that does not end.
  unfoldable pub register : Name → L → S → Registry L S → Option (Registry L S × Bool)
  unfolding store evict evict_one
  register id label stops r =
      store id label stops (evict (suc (length r.labels)) (without_label id r))

  -- `retainColorMap` of a custom name, and the function that it returns
  pub retain : Name → Registry L S → Registry L S
  retain id r = record r { retained = set_count r.retained id (retained_count r.retained id 0 + 1) }

  pub release : Name → Registry L S → Registry L S
  release id r =
      let remaining = retained_count r.retained id 1 - 1 in
      if ltb 0 remaining
      then record r { retained = set_count r.retained id remaining }
      else record r { retained = filter (λ k. not (k.id === id)) r.retained }

-- `registerCustomColorMap`, its validation first
unfoldable pub register_custom_color_map :
    {N : Type 0} (is_finite : N → Bool) (less equal : N → N → Bool) (zero_value one_value : N)
    → Name
    → List ℕ
    → List (Stop N)
    → Registry (List ℕ) (List (Stop N))
    → Result ColorMapError (Option (Registry (List ℕ) (List (Stop N)) × Bool))
register_custom_color_map is_finite less equal zero_value one_value id label stops r = do
  throw_if (ltb 1024 (length id) || not (is_custom_id id)) bad_id
  throw_if (is_empty (trim label) || ltb 200 (length (trim label))) bad_label
  validated ← validated_stops is_finite less equal zero_value one_value stops
  ok (register id (trim label) validated r)
