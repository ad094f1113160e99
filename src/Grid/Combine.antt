-- ===== src/Grid/Combine.antt =====
-- `compatibleArrayNames`, `combinePieces` and the checks of `parseStructuredSurface`, in
-- frontend/src/lib/structuredGrid.ts. Typed arrays that the code fills in the order of their
-- indices are built in that order; the others are allocated and written at their offsets.
pub mod Laws
pub mod PointData
pub mod Surface
pub mod CellData
use Prim.Native.String.{String}
use my_paraview_web.Common.{
  ℕ, zero, suc, ◌+◌, ◌*◌, Bool, true, false, Option, none, some, List, [], ◌∷◌, ◌++◌, map, ltb,
  if◌then◌else◌, length, for_from, get_or, get_elem?, all, filter, replicate, write_at, ◌==◌,
  concat_map,
}
use my_paraview_web.Common.Result.{Result, ok, err, ◌>>=◌, ◌>>◌, throw_if}
use my_paraview_web.Grid.Extent.{Dimensions, point_count}
use my_paraview_web.Grid.Connectivity.{Appended, done, invalid, out_of_fuel, append_connectivity}
use my_paraview_web.Grid.Arrays.{
  GridError, too_many_points, no_pieces, invalid_connectivity, out_of_range, SurfaceArray,
  get_array,
}
use my_paraview_web.Grid.Arrays

pub record PieceSurface (V : Type 0) : Type 0 where
  pub number_of_points : ℕ
  pub source_cell_count : ℕ
  pub points : List V
  pub polys : List ℕ
  pub lines : List ℕ
  pub verts : List ℕ
  pub poly_sources : List ℕ
  pub line_sources : List ℕ
  pub vert_sources : List ℕ
  pub point_arrays : List (SurfaceArray V)
  pub cell_arrays : List (SurfaceArray V)

pub record Geometry (V : Type 0) : Type 0 where
  pub points : List V
  pub polys : List ℕ
  pub lines : List ℕ
  pub verts : List ℕ
  pub point_offset : ℕ

pub record StructuredSurface (V : Type 0) : Type 0 where
  pub number_of_points : ℕ
  pub points : List V
  pub polys : List ℕ
  pub lines : List ℕ
  pub verts : List ℕ
  pub point_arrays : List (SurfaceArray V)
  pub cell_arrays : List (SurfaceArray V)
  pub source_cell_count : ℕ
  pub primitive_count : ℕ

-- `pieces.reduce((sum, piece) => sum + size(piece), 0)`
pub total_of {ℓ} : {A : Type ℓ} → (A → ℕ) → List A → ℕ
total_of size [] = 0
total_of size (p ∷ ps) = size p + total_of size ps

-- An exception of `appendConnectivity` or of `TypedArray.set` leaves `combinePieces`.
abbrev pub appended : Appended → Result GridError (List ℕ)
appended (done ids) = ok ids
appended invalid = err invalid_connectivity
appended out_of_fuel = err Arrays.out_of_fuel

abbrev pub written : {V : Type 0} → Option (List V) → Result GridError (List V)
written (some values) = ok values
written none = err out_of_range

abbrev pub same_components : Option ℕ → Option ℕ → Bool
same_components none none = true
same_components (some a) (some b) = a == b
same_components _ _ = false

-- `?? 1`
abbrev pub components_or_one : Option ℕ → ℕ
components_or_one none = 1
components_or_one (some n) = n

pub record EmittedCell : Type 0 where
  pub piece_index : ℕ
  pub cell : ℕ

module _ {V : Type 0} where
  pub append_piece : Geometry V → PieceSurface V → Result GridError (Geometry V)
  append_piece g piece = do
    points ← written (write_at g.points (g.point_offset * 3) piece.points)
    polys ← appended (append_connectivity g.polys piece.polys g.point_offset)
    lines ← appended (append_connectivity g.lines piece.lines g.point_offset)
    verts ← appended (append_connectivity g.verts piece.verts g.point_offset)
    ok (record {
      points = points;
      polys = polys;
      lines = lines;
      verts = verts;
      point_offset = g.point_offset + piece.number_of_points;
    })

  pub append_pieces : Geometry V → List (PieceSurface V) → Result GridError (Geometry V)
  append_pieces g [] = ok g
  append_pieces g (piece ∷ rest) = append_piece g piece >>= λ next. append_pieces next rest

  -- `?.numberOfComponents` and `?.values`
  abbrev pub components_in : Option (SurfaceArray V) → Option ℕ
  components_in none = none
  components_in (some a) = some a.components

  abbrev pub values_in : Option (SurfaceArray V) → Option (List V)
  values_in none = none
  values_in (some a) = some a.values

  -- `piece[association].get(name)?.numberOfComponents`
  abbrev pub components_of : List (SurfaceArray V) → String → Option ℕ
  components_of arrays name = components_in (get_array arrays name)

  -- There is a first piece: `parseStructuredSurface` throws before if there is none.
  pub compatible_array_names :
      (PieceSurface V → List (SurfaceArray V)) → List (PieceSurface V) → List String
  compatible_array_names arrays [] = []
  compatible_array_names arrays (first ∷ rest) =
      filter
        (λ name.
          all
            (λ piece.
              same_components (components_of (arrays piece) name)
                (components_of (arrays first) name))
            (first ∷ rest))
        (map (λ a. a.name) (arrays first))

  abbrev pub first_components :
      (PieceSurface V → List (SurfaceArray V)) → List (PieceSurface V) → String → ℕ
  first_components arrays [] name = 1
  first_components arrays (first ∷ _) name = components_or_one (components_of (arrays first) name)

  -- one round of the loop that concatenates a point array over the pieces
  abbrev pub next_values : List V → ℕ → Option (SurfaceArray V) → Result GridError (List V × ℕ)
  next_values values offset none = ok (values, offset)
  next_values values offset (some a) =
      written (write_at values offset a.values) >>= λ next. ok (next, offset + length a.values)

  pub concat_values : String → List V → ℕ → List (PieceSurface V) → Result GridError (List V)
  concat_values name values offset [] = ok values
  concat_values name values offset (piece ∷ rest) =
      next_values values offset (get_array piece.point_arrays name) >>= λ next.
      concat_values name next.0 next.1 rest

  -- `pieces.flatMap((piece, pieceIndex) => piece.sources.map((cell) => ({ pieceIndex, cell })))`
  pub emitted_from : (PieceSurface V → List ℕ) → ℕ → List (PieceSurface V) → List EmittedCell
  emitted_from cells index [] = []
  emitted_from cells index (piece ∷ rest) =
      map (λ cell. record { piece_index = index; cell = cell }) (cells piece)
      ++ emitted_from cells (index + 1) rest

  -- the order of vtk.js: verts, lines, polys
  pub emitted_cells : List (PieceSurface V) → List EmittedCell
  emitted_cells pieces =
      emitted_from (λ p. p.vert_sources) 0 pieces
      ++ (emitted_from (λ p. p.line_sources) 0 pieces
          ++ emitted_from (λ p. p.poly_sources) 0 pieces)

  -- `pieces[pieceIndex].cellArrays.get(name)?.values`
  abbrev pub cell_values_in : String → Option (PieceSurface V) → Option (List V)
  cell_values_in name none = none
  cell_values_in name (some piece) = values_in (get_array piece.cell_arrays name)

  abbrev pub cell_source : List (PieceSurface V) → String → ℕ → Option (List V)
  cell_source pieces name index = cell_values_in name (get_elem? pieces index)

  -- What a typed array holds when it is allocated is 0.
  module _ (zero_value : V) where
    pub merge_point_arrays :
        ℕ → List (PieceSurface V) → List String → Result GridError (List (SurfaceArray V))
    merge_point_arrays total pieces [] = ok []
    merge_point_arrays total pieces (name ∷ names) = do
      let n = first_components (λ p. p.point_arrays) pieces name
      values ← concat_values name (replicate (total * n) zero_value) 0 pieces
      rest ← merge_point_arrays total pieces names
      ok (record { name = name; components = n; values = values } ∷ rest)

    pub new_geometry : ℕ → Geometry V
    new_geometry total = record {
      points = replicate (total * 3) zero_value;
      polys = [];
      lines = [];
      verts = [];
      point_offset = 0;
    }

  -- Reading past the end of a source gives NaN.
  module _ (zero_value nan : V) where
    -- one round of the loop over `emitted`, `n` components from `start`
    abbrev pub copy_tuple : ℕ → ℕ → Option (List V) → List V
    copy_tuple n start none = replicate n zero_value
    copy_tuple n start (some source) = for_from n 0 (λ c. get_or source (start + c) nan ∷ [])

    abbrev pub cell_tuple : List (PieceSurface V) → String → ℕ → EmittedCell → List V
    cell_tuple pieces name n e = copy_tuple n (e.cell * n) (cell_source pieces name e.piece_index)

    pub cell_values : List (PieceSurface V) → String → ℕ → List EmittedCell → List V
    cell_values pieces name n = concat_map (cell_tuple pieces name n)

    pub merge_cell_array : List (PieceSurface V) → String → SurfaceArray V
    merge_cell_array pieces name =
        let n = first_components (λ p. p.cell_arrays) pieces name in
        record {
          name = name;
          components = n;
          values = cell_values pieces name n (emitted_cells pieces);
        }

    pub combine_pieces : List (PieceSurface V) → Result GridError (StructuredSurface V)
    combine_pieces pieces = do
      let total = total_of (λ p. p.number_of_points) pieces
      g ← append_pieces (new_geometry zero_value total) pieces
      point_arrays ←
          merge_point_arrays zero_value total pieces
            (compatible_array_names (λ p. p.point_arrays) pieces)
      ok (record {
        number_of_points = total;
        points = g.points;
        polys = g.polys;
        lines = g.lines;
        verts = g.verts;
        point_arrays = point_arrays;
        cell_arrays =
            map (merge_cell_array pieces) (compatible_array_names (λ p. p.cell_arrays) pieces);
        source_cell_count = total_of (λ p. p.source_cell_count) pieces;
        primitive_count = length (emitted_cells pieces);
      })

-- `MAX_STRUCTURED_SOURCE_POINTS`, and the checks before any piece is read. A total that is no safe
-- integer is above the limit too.
abbrev pub max_structured_source_points : ℕ
max_structured_source_points = 2000000

unfoldable pub check_pieces : List Dimensions → Result GridError (Unit {0})
check_pieces pieces = do
  throw_if (length pieces == 0) no_pieces
  throw_if (ltb max_structured_source_points (total_of point_count pieces)) too_many_points
