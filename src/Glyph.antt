-- ===== src/Glyph.antt =====
-- The selection of the arrows of a vector glyph, `deterministicSampleIndices` and
-- `samplePointVectors` of frontend/src/lib/viewer/vectorGlyph.ts. A number of the browser is of a
-- type `V`, of which the tests and functions of the language are parameters. Totals and limits are
-- natural numbers; a quotient is rounded exactly, half up, as it is below 2 ^ 53.

pub mod Indices
pub mod Selection
mod Tests
use my_paraview_web.Common.{
  ℕ, zero, suc, ◌+◌, ◌-◌, ◌*◌, ◌/◌, Bool, true, false, not, ◌&&◌, ◌||◌, Option, none, some, List,
  [], ◌∷◌, ◌++◌, length, get_or, leb, if◌then◌else◌, ◌==◌,
}

-- `MAX_VECTOR_GLYPHS`
abbrev pub max_vector_glyphs : ℕ
max_vector_glyphs = 2000

-- `Math.round(a / b)`
abbrev pub round_div : ℕ → ℕ → ℕ
round_div a b = (2 * a + b) / (2 * b)

-- `Array.from({ length: n }, (_, index) => f(index))`, from `index` on
pub array_from : (ℕ → ℕ) → ℕ → ℕ → List ℕ
array_from f index zero = []
array_from f index (suc n) = f index ∷ array_from f (index + 1) n

unfoldable pub deterministic_sample_indices : ℕ → ℕ → List ℕ
unfolding array_from
deterministic_sample_indices count limit =
    if count == 0 || limit == 0
    then []
    else if leb count limit
    then array_from (λ index. index) 0 count
    else if limit == 1
    then 0 ∷ []
    else array_from (λ index. round_div (index * (count - 1)) (limit - 1)) 0 limit

pub record SampledVectors (V : Type 0) : Type 0 where
  pub points : List V
  pub vectors : List V
  pub glyph_count : ℕ
  pub source_point_count : ℕ
  pub max_magnitude : V

module _ {V : Type 0} (is_finite is_positive : V → Bool) (hypot : V → V → V → V) (max : V → V → V)
    (zero_value nan : V) where
  -- `finitePositive`
  abbrev pub finite_positive : V → Bool
  finite_positive v = is_finite v && is_positive v

  abbrev pub all_finite : V → V → V → Bool
  all_finite a b c = is_finite a && (is_finite b && is_finite c)

  module _ (points vectors : List V) where
    abbrev pub component : List V → ℕ → ℕ → V
    component values index c = get_or values (index * 3 + c) nan

    abbrev pub vector_magnitude : ℕ → V
    vector_magnitude i =
        hypot (component vectors i 0) (component vectors i 1) (component vectors i 2)

    pub magnitude_at : ℕ → Option V
    magnitude_at i =
        if all_finite (component points i 0) (component points i 1) (component points i 2)
          && (all_finite (component vectors i 0) (component vectors i 1) (component vectors i 2)
              && finite_positive (vector_magnitude i))
        then some (vector_magnitude i)
        else none

    abbrev pub tuple_at : List V → ℕ → List V
    tuple_at values i = component values i 0 ∷ component values i 1 ∷ component values i 2 ∷ []

    abbrev pub count_one : Option V → ℕ × V → ℕ × V
    count_one none found = found
    count_one (some m) found = (found.0 + 1, max found.1 m)

    -- the first loop: `validVectorCount` and `maxMagnitude`
    pub count_valid : ℕ → ℕ → ℕ × V → ℕ × V
    count_valid zero i found = found
    count_valid (suc n) i found = count_valid n (i + 1) (count_one (magnitude_at i) found)

    -- One round of the second loop, with the rest of the loop: the indices that are selected.
    pub select_one : (ℕ → List ℕ → List ℕ) → Option V → ℕ → ℕ → ℕ → List ℕ → List ℕ
    select_one rest none i ordinal target targets = rest ordinal (target ∷ targets)
    select_one rest (some m) i ordinal target targets =
        if ordinal == target
        then i ∷ rest (ordinal + 1) targets
        else rest (ordinal + 1) (target ∷ targets)

    -- the second loop, from point `i` on, with the target ordinals that are left
    pub select : ℕ → ℕ → ℕ → List ℕ → List ℕ
    select zero i ordinal targets = []
    select (suc n) i ordinal [] = []
    select (suc n) i ordinal (target ∷ targets) =
        select_one (select n (i + 1)) (magnitude_at i) i ordinal target targets

    pub gather : List V → List ℕ → List V
    gather values [] = []
    gather values (i ∷ is) = tuple_at values i ++ gather values is

    abbrev pub source_points : ℕ
    source_points =
        if leb (length points / 3) (length vectors / 3)
        then length points / 3
        else length vectors / 3

    -- The values of the points and of a vector array of three components; `none` is `null`.
    unfoldable pub sample_point_vectors : ℕ → Option (SampledVectors V)
    unfolding count_valid magnitude_at select select_one gather
    sample_point_vectors limit =
        let found = count_valid source_points 0 (0, zero_value) in
        let chosen = select source_points 0 0 (deterministic_sample_indices found.0 limit) in
        if found.0 == 0 || not (finite_positive found.1)
        then none
        else some (record {
          points = gather points chosen;
          vectors = gather vectors chosen;
          glyph_count = length (gather points chosen) / 3;
          source_point_count = source_points;
          max_magnitude = found.1;
        })
