-- ===== src/Grid/Arrays.antt =====
-- `readAttributeArrays`, `readStructuredPoints` and `readRectilinearPoints` of
-- frontend/src/lib/structuredGrid.ts. The decoded values of the DataArray elements are the input;
-- a value of a Float64Array is of a type `V`, of which only NaN is known.
pub mod Points
use Prim.Native.String.{String}
use my_paraview_web.Common.{
  ℕ, zero, suc, ◌+◌, ◌-◌, ◌*◌, ◌≡◌, Bool, ◌||◌, not, Option, none, some, List, [], ◌∷◌, ◌++◌, map,
  ltb, leb, if◌then◌else◌, length, for_from, get_or, find?, ◌==◌, any,
}
use my_paraview_web.Common.Eq.{◌===◌, String_eq}
use my_paraview_web.Common.Int.{ℤ, pos, negsuc}
use my_paraview_web.Common.Result.{Result, ok, err, ◌>>=◌, ◌>>◌, throw_if}
use my_paraview_web.Grid.Extent.{JsNumber, integer, other, is_safe_integer, Dimensions, point_count}

pub data GridError : Type 0 where
  invalid_components : String → GridError
  wrong_count : (expected actual : ℕ) → GridError
  no_points wrong_coordinates invalid_extent no_pieces too_many_points : GridError
  invalid_connectivity out_of_range out_of_fuel : GridError

pub record SurfaceArray (V : Type 0) : Type 0 where
  pub name : String
  pub components : ℕ
  pub values : List V

-- A DataArray element: its name, its NumberOfComponents, and its decoded values.
pub record DataArray (V : Type 0) : Type 0 where
  pub name : String
  pub components : JsNumber
  pub values : List V

-- `Number.isSafeInteger(n) && n >= 1`, and the number
abbrev pub positive_integer : JsNumber → Option ℕ
positive_integer (integer (pos (suc n))) =
    if is_safe_integer (integer (pos (suc n))) then some (suc n) else none
positive_integer _ = none

module _ {V : Type 0} where
  -- `arrays.set(name, …)` on a Map, which lists its keys in the order of their first insertion.
  unfoldable pub set_array : List (SurfaceArray V) → SurfaceArray V → List (SurfaceArray V)
  set_array [] a = a ∷ []
  set_array (b ∷ m) a = if b.name === a.name then a ∷ m else b ∷ set_array m a

  -- `arrays.get(name)`
  abbrev pub get_array : List (SurfaceArray V) → String → Option (SurfaceArray V)
  get_array m name = find? (λ a. a.name === name) m

  read_array : ℕ → List (SurfaceArray V) → DataArray V → Result GridError (List (SurfaceArray V))
  read_array tuples arrays element = elim (positive_integer element.components) [
    | none ↦ err (invalid_components element.name)
    | some n ↦
        if length element.values == tuples * n
        then ok (
            set_array arrays
              (record { name = element.name; components = n; values = element.values }))
        else err (wrong_count (tuples * n) (length element.values))
  ]

  read_arrays :
      ℕ → List (SurfaceArray V) → List (DataArray V) → Result GridError (List (SurfaceArray V))
  read_arrays tuples arrays [] = ok arrays
  read_arrays tuples arrays (element ∷ rest) =
      read_array tuples arrays element >>= λ next. read_arrays tuples next rest

  unfoldable pub read_attribute_arrays :
      ℕ → List (DataArray V) → Result GridError (List (SurfaceArray V))
  unfolding read_arrays read_array set_array
  read_attribute_arrays tuples elements = read_arrays tuples [] elements

  unfoldable pub read_structured_points : Dimensions → Option (List V) → Result GridError (List V)
  read_structured_points d none = err no_points
  read_structured_points d (some points) =
      if length points == point_count d * 3
      then ok points
      else err (wrong_count (point_count d * 3) (length points))

  module _ (nan : V) where
    -- The three nested loops that fill the array, three values for each point.
    pub expand_coordinates : Dimensions → List V → List V → List V → List V
    expand_coordinates d xs ys zs = for_from d.nz 0 (λ k.
        for_from d.ny 0
          (λ j. for_from d.nx 0 (λ i. get_or xs i nan ∷ get_or ys j nan ∷ get_or zs k nan ∷ [])))

    pub check_axis : ℕ → List V → Result GridError (Unit {0})
    check_axis expected coordinates =
        throw_if (not (length coordinates == expected)) (wrong_count expected (length coordinates))

    unfoldable pub read_rectilinear_points : Dimensions → List (List V) → Result GridError (List V)
    unfolding expand_coordinates check_axis
    read_rectilinear_points d (xs ∷ ys ∷ zs ∷ []) = do
      check_axis d.nx xs
      check_axis d.ny ys
      check_axis d.nz zs
      ok (expand_coordinates d xs ys zs)
    read_rectilinear_points d _ = err wrong_coordinates
