-- ===== src/Vtu/Surface.antt =====
-- parseVtuSurface over the pieces of a document. A piece holds its elements with what
-- readVtkDataArray gives for them, a value list or the error that it throws, in the order of the
-- document; the values of coordinates and attributes are of any type `V`, with the value 0 that a new
-- typed array holds and the NaN that a read past an end leaves.
pub mod Owner
pub mod Attributes
pub mod Parsed
pub mod Listed
pub mod Components
pub mod Whole
use Prim.Native.Nat.{◌^◌}
use my_paraview_web.Common.{
  ℕ, zero, suc, ◌+◌, ◌-◌, ◌*◌, ◌%◌, Bool, true, false, Option, none, some, List, [], ◌∷◌, ◌++◌, map,
  if◌then◌else◌, length, get_or, get_elem?, for_from, concat_map, is_empty, ltb, leb,
}
use my_paraview_web.Common.Eq.{Text, codes, contains, Units_eq}
use my_paraview_web.Common.Result.{Result, ok, err, ◌>>=◌, ◌>>◌, throw_if}
use my_paraview_web.Common.Dict.{dict_get, dict_set}
use my_paraview_web.VtkXml.Bytes.{VtkError}
use my_paraview_web.Vtu.Faces.Corners.{Corner, number, nan, undefined}
use my_paraview_web.Vtu.Cells.{
  VtuError, no_pieces, no_points, missing_arrays, unreadable, Emitted, cells_from, emit_piece,
}

-- What `await readVtkDataArray` gives.
abbrev pub Reading : Type 0 → Type 0
Reading A = Result VtkError (List A)

-- A DataArray of PointData or CellData.
pub record Attribute (V : Type 0) : Type 0 where
  pub name : Text
  pub components : ℕ
  pub values : Reading V

pub record PieceElement (V : Type 0) : Type 0 where
  pub number_of_points : ℕ
  pub points : Option (Reading V)
  pub cells : List (Text × Reading ℕ)
  pub point_data : List (Attribute V)
  pub cell_data : List (Attribute V)

-- `{ numberOfComponents, chunks }`
pub record Chunks (V : Type 0) : Type 0 where
  pub components : ℕ
  pub chunks : List (List V)

-- `{ arrays, components }`, the two maps of a piece
pub record CellData (V : Type 0) : Type 0 where
  pub arrays : List (Text × List V)
  pub components : List (Text × ℕ)

pub record VtuArray (V : Type 0) : Type 0 where
  pub name : Text
  pub components : ℕ
  pub values : List V

pub record VtuSurface (V : Type 0) : Type 0 where
  pub number_of_points : ℕ
  pub points : List V
  pub polys : List ℕ
  pub lines : List ℕ
  pub verts : List ℕ
  pub point_arrays : List (VtuArray V)
  pub cell_arrays : List (VtuArray V)
  pub source_cell_count : ℕ
  pub poly_count : ℕ

-- The variables of the loop over the pieces.
pub record Parsing (V : Type 0) : Type 0 where
  pub point_chunks : List (List V)
  pub emitted : Emitted
  pub point_arrays : List (Text × Chunks V)
  pub cell_data : List (CellData V)
  pub cell_counts : List ℕ
  pub point_offset : ℕ
  pub total_cells : ℕ

abbrev pub read : {A : Type 0} → Reading A → Result VtuError (List A)
read (ok values) = ok values
read (err e) = err (unreadable e)

abbrev pub points_of : {V : Type 0} → Option (Reading V) → Result VtuError (List V)
points_of none = err no_points
points_of (some r) = read r

-- The map of the arrays of Cells.
pub read_cells :
    List (Text × List ℕ) → List (Text × Reading ℕ) → Result VtuError (List (Text × List ℕ))
read_cells arrays [] = ok arrays
read_cells arrays ((name, r) ∷ rest) =
    read r >>= λ values. read_cells (dict_set arrays name values) rest

-- `if (!connectivity || !offsets || !types) throw …`
abbrev pub all_three :
    Option (List ℕ) → Option (List ℕ) → Option (List ℕ) → Result VtuError (List ℕ × List ℕ × List ℕ)
all_three (some connectivity) (some offsets) (some types) = ok (connectivity, offsets, types)
all_three _ _ _ = err missing_arrays

abbrev pub topology_of : List (Text × List ℕ) → Result VtuError (List ℕ × List ℕ × List ℕ)
topology_of arrays =
    all_three (dict_get arrays (codes "connectivity")) (dict_get arrays (codes "offsets"))
      (dict_get arrays (codes "types"))

module _ {V : Type 0} where
  -- `pointArrayChunks.get(name) ?? { numberOfComponents, chunks: [] }`
  abbrev pub entry_of : ℕ → Option (Chunks V) → Chunks V
  entry_of components none = record { components = components; chunks = [] }
  entry_of components (some entry) = entry

  abbrev pub add_chunk : List (Text × Chunks V) → Text → ℕ → List V → List (Text × Chunks V)
  add_chunk arrays name components values =
      let entry = entry_of components (dict_get arrays name) in
      dict_set arrays name (record entry { chunks = entry.chunks ++ values ∷ [] })

  pub read_point_data :
      List (Text × Chunks V) → List (Attribute V) → Result VtuError (List (Text × Chunks V))
  read_point_data arrays [] = ok arrays
  read_point_data arrays (a ∷ rest) =
      read a.values >>= λ values. read_point_data (add_chunk arrays a.name a.components values) rest

  pub read_cell_data : CellData V → List (Attribute V) → Result VtuError (CellData V)
  read_cell_data d [] = ok d
  read_cell_data d (a ∷ rest) = read a.values >>= λ values.
      read_cell_data
        (record {
          arrays = dict_set d.arrays a.name values;
          components = dict_set d.components a.name a.components;
        })
        rest

  abbrev pub no_cell_data : CellData V
  no_cell_data = record { arrays = []; components = [] }

  -- One round of the loop over the pieces.
  unfoldable pub parse_piece : Parsing V → PieceElement V → Result VtuError (Parsing V)
  unfolding read_cells read_point_data read_cell_data emit_piece cells_from
  parse_piece s piece = do
    points ← points_of piece.points
    arrays ← read_cells [] piece.cells
    topology ← topology_of arrays
    let types = topology.2
    point_arrays ← read_point_data s.point_arrays piece.point_data
    cell_data ← read_cell_data no_cell_data piece.cell_data
    emitted ←
        emit_piece s.emitted
          (cells_from topology.0 topology.1 s.point_offset s.total_cells 0 (some 0) types)
    ok (record {
      point_chunks = s.point_chunks ++ points ∷ [];
      emitted = emitted;
      point_arrays = point_arrays;
      cell_data = s.cell_data ++ cell_data ∷ [];
      cell_counts = s.cell_counts ++ length types ∷ [];
      point_offset = s.point_offset + piece.number_of_points;
      total_cells = s.total_cells + length types;
    })

  unfoldable pub parse_pieces : Parsing V → List (PieceElement V) → Result VtuError (Parsing V)
  unfolding parse_piece
  parse_pieces s [] = ok s
  parse_pieces s (piece ∷ rest) = parse_piece s piece >>= λ next. parse_pieces next rest

  abbrev pub new_parsing : Parsing V
  new_parsing = record {
    point_chunks = [];
    emitted = record {
      poly_ids = [];
      line_ids = [];
      vert_ids = [];
      poly_sources = [];
      line_sources = [];
      vert_sources = [];
    };
    point_arrays = [];
    cell_data = [];
    cell_counts = [];
    point_offset = 0;
    total_cells = 0;
  }

-- `Uint32Array.from`
abbrev pub to_uint32 : Corner → ℕ
to_uint32 (number n) = n % 2 ^ 32
to_uint32 nan = 0
to_uint32 undefined = 0

-- `pieceCellStarts`
unfoldable pub starts_from : ℕ → List ℕ → List ℕ
starts_from start [] = []
starts_from start (count ∷ counts) = start ∷ starts_from (start + count) counts

abbrev pub is_reached : ℕ → Option ℕ → Bool
is_reached global none = false
is_reached global (some start) = leb start global

-- `for (let index = n - 1; index >= 0; index -= 1) if (globalCell >= starts[index]) return index`
unfoldable pub piece_below : List ℕ → ℕ → ℕ → ℕ
piece_below starts global zero = 0
piece_below starts global (suc index) =
    let before = piece_below starts global index in
    if is_reached global (get_elem? starts index) then index else before

unfoldable pub piece_for_cell : List ℕ → ℕ → ℕ
unfolding piece_below
piece_for_cell starts global = piece_below starts global (length starts)

abbrev pub concat : {V : Type 0} → List (List V) → List V
concat = concat_map (λ chunk. chunk)

-- `cellArrayNames.add(name)`
abbrev pub add_name : List Text → Text → List Text
add_name names name = if contains names name then names else names ++ name ∷ []

abbrev pub components_or : Option ℕ → ℕ → ℕ
components_or none later = later
components_or (some n) later = n

-- The order of vtk.js: verts, lines, polys.
abbrev pub emitted_sources : Emitted → List ℕ
emitted_sources e = e.vert_sources ++ (e.line_sources ++ e.poly_sources)

abbrev pub number_or_zero : Option ℕ → ℕ
number_or_zero none = 0
number_or_zero (some n) = n

module _ {V : Type 0} where
  unfoldable pub add_names : List Text → List (Text × List V) → List Text
  add_names names [] = names
  add_names names ((name, values) ∷ rest) = add_names (add_name names name) rest

  unfoldable pub cell_array_names : List Text → List (CellData V) → List Text
  unfolding add_names
  cell_array_names names [] = names
  cell_array_names names (d ∷ rest) = cell_array_names (add_names names d.arrays) rest

  -- `cellDataPerPiece.find((piece) => piece.components.has(name))?.components.get(name) ?? 1`
  unfoldable pub components_of : List (CellData V) → Text → ℕ
  components_of [] name = 1
  components_of (d ∷ rest) name =
      components_or (dict_get d.components name) (components_of rest name)

  abbrev pub array_in : Option (CellData V) → Text → Option (List V)
  array_in none name = none
  array_in (some d) name = dict_get d.arrays name

  -- Concatenated in the order of the pieces.
  abbrev pub point_array : Text × Chunks V → VtuArray V
  point_array (name, entry) = record {
    name = name;
    components = entry.components;
    values = concat entry.chunks;
  }

  abbrev pub joined : Option (List V) → Option (List V) → Option (List V)
  joined (some tuple) (some rest) = some (tuple ++ rest)
  joined _ _ = none

  abbrev pub kept : Text → ℕ → Option (List V) → List (VtuArray V) → List (VtuArray V)
  kept name n none later = later
  kept name n (some values) later = record { name = name; components = n; values = values } ∷ later

  module _ (not_a_number : V) where
    -- The tuple of an emitted cell, `none` where its piece lacks the array.
    abbrev pub tuple_of : ℕ → ℕ → Option (List V) → Option (List V)
    tuple_of n local none = none
    tuple_of n local (some source) =
        some (for_from n 0 (λ c. get_or source (local * n + c) not_a_number ∷ []))

    abbrev pub cell_tuple : List (CellData V) → List ℕ → Text → ℕ → ℕ → Option (List V)
    cell_tuple per_piece starts name n global =
        let index = piece_for_cell starts global in
        tuple_of n (global - number_or_zero (get_elem? starts index))
          (array_in (get_elem? per_piece index) name)

    -- The loop over `emittedSourceCells`; `break` with `ok = false` gives none.
    unfoldable pub cell_values : List (CellData V) → List ℕ → Text → ℕ → List ℕ → Option (List V)
    unfolding piece_for_cell for_from
    cell_values per_piece starts name n [] = some []
    cell_values per_piece starts name n (global ∷ rest) =
        joined (cell_tuple per_piece starts name n global)
          (cell_values per_piece starts name n rest)

    unfoldable pub cell_arrays : List (CellData V) → List ℕ → List ℕ → List Text → List (VtuArray V)
    unfolding components_of cell_values
    cell_arrays per_piece starts emitted [] = []
    cell_arrays per_piece starts emitted (name ∷ names) =
        let n = components_of per_piece name in
        kept name n (cell_values per_piece starts name n emitted)
          (cell_arrays per_piece starts emitted names)

    unfoldable pub surface_of : Parsing V → VtuSurface V
    unfolding starts_from cell_array_names cell_arrays
    surface_of s = record {
      number_of_points = s.point_offset;
      points = concat s.point_chunks;
      polys = map to_uint32 s.emitted.poly_ids;
      lines = map to_uint32 s.emitted.line_ids;
      verts = map to_uint32 s.emitted.vert_ids;
      point_arrays = map point_array s.point_arrays;
      cell_arrays =
          cell_arrays s.cell_data (starts_from 0 s.cell_counts) (emitted_sources s.emitted)
            (cell_array_names [] s.cell_data);
      source_cell_count = s.total_cells;
      poly_count = length s.emitted.poly_sources;
    }

    unfoldable pub parse_vtu_surface : List (PieceElement V) → Result VtuError (VtuSurface V)
    unfolding parse_pieces surface_of
    parse_vtu_surface pieces = do
      throw_if (is_empty pieces) no_pieces
      s ← parse_pieces new_parsing pieces
      ok (surface_of s)
