-- ===== src/Vtu/Cells.antt =====
-- The loop over the cells of a piece in parseVtuSurface, and the faces that it leaves over.
pub mod Emission
pub mod Types
use my_paraview_web.Common.{
  ℕ, suc, ◌+◌, ◌-◌, Bool, ◌||◌, Option, none, some, List, [], ◌∷◌, ◌++◌, map, ◌==◌, if◌then◌else◌,
  length, get_elem?, get_or, for_from, concat_map,
}
use my_paraview_web.Common.Result.{Result, ok, err, ◌>>=◌}
use my_paraview_web.VtkXml.Bytes.{VtkError}
use my_paraview_web.Vtu.Faces.{Use, Face, cell_faces, face_ids, use_faces, used_once}
use my_paraview_web.Vtu.Faces.Corners.{Corner, number, nan, undefined}

-- The errors of the module, and those of the reading of an array.
pub data VtuError : Type 0 where
  no_pieces : VtuError
  no_points : VtuError
  missing_arrays : VtuError
  unsupported_type : ℕ → VtuError
  unreadable : VtkError → VtuError

-- A cell of a piece: its type, `cellPointIds`, and `globalCell`.
pub record Cell : Type 0 where
  pub type : ℕ
  pub ids : List Corner
  pub global : ℕ

-- The arrays that the loop pushes to, as they are before Uint32Array.from.
pub record Emitted : Type 0 where
  pub poly_ids : List Corner
  pub line_ids : List Corner
  pub vert_ids : List Corner
  pub poly_sources : List ℕ
  pub line_sources : List ℕ
  pub vert_sources : List ℕ

-- `connectivity[cursor] + pointOffset`
abbrev pub shifted : ℕ → Option ℕ → Corner
shifted point_offset none = nan
shifted point_offset (some id) = number (id + point_offset)

-- `for (let cursor = start; cursor < end; cursor += 1) …`: nothing is less than undefined
abbrev pub cell_points : List ℕ → ℕ → Option ℕ → Option ℕ → List Corner
cell_points connectivity point_offset (some start) (some end) =
    for_from (end - start) start
      (λ cursor. shifted point_offset (get_elem? connectivity cursor) ∷ [])
cell_points connectivity point_offset _ _ = []

-- The cells that the loop reads, from `cell` and `start` on.
unfoldable pub cells_from : List ℕ → List ℕ → ℕ → ℕ → ℕ → Option ℕ → List ℕ → List Cell
unfolding for_from
cells_from connectivity offsets point_offset total cell start [] = []
cells_from connectivity offsets point_offset total cell start (type ∷ types) =
    let end = get_elem? offsets cell in
    record {
      type = type;
      ids = cell_points connectivity point_offset start end;
      global = total + cell;
    }
    ∷ cells_from connectivity offsets point_offset total (cell + 1) end types

-- `CELL_2D`, `CELL_LINE`, `CELL_VERTEX`
abbrev pub is_flat : ℕ → Bool
is_flat type = type == 5 || (type == 8 || (type == 9 || type == 7))

abbrev pub is_line : ℕ → Bool
is_line type = type == 3 || type == 4

abbrev pub is_vertex : ℕ → Bool
is_vertex type = type == 1 || type == 2

-- The swap of a pixel's corners.
abbrev pub winding : ℕ → List Corner → List Corner
winding type ids =
    if type == 8
    then get_or ids 0 undefined
      ∷ (get_or ids 1 undefined ∷ (get_or ids 3 undefined ∷ (get_or ids 2 undefined ∷ [])))
    else ids

-- `out.push(ids.length, ...ids)`
abbrev pub pushed : List Corner → List Corner
pushed ids = number (length ids) ∷ ids

abbrev pub faces_of : Cell → List (List ℕ) → List Face
faces_of c faces = map (λ face. record { ids = face_ids c.ids face; cell = c.global }) faces

abbrev pub add_poly : Emitted → List Corner → ℕ → Emitted
add_poly e ids global = record e {
  poly_ids = e.poly_ids ++ pushed ids;
  poly_sources = e.poly_sources ++ global ∷ [];
}

abbrev pub add_line : Emitted → List Corner → ℕ → Emitted
add_line e ids global = record e {
  line_ids = e.line_ids ++ pushed ids;
  line_sources = e.line_sources ++ global ∷ [];
}

abbrev pub add_vert : Emitted → List Corner → ℕ → Emitted
add_vert e ids global = record e {
  vert_ids = e.vert_ids ++ pushed ids;
  vert_sources = e.vert_sources ++ global ∷ [];
}

abbrev pub Uses : Type 0
Uses = List (List Corner × Use)

-- The branches on the type of a cell.
unfoldable pub add_cell_of :
    Emitted → Uses → Cell → Option (List (List ℕ)) → Result VtuError (Emitted × Uses)
add_cell_of e uses c (some faces) = ok (e, use_faces uses (faces_of c faces))
add_cell_of e uses c none =
    if is_flat c.type
    then ok (add_poly e (winding c.type c.ids) c.global, uses)
    else (if is_line c.type
        then ok (add_line e c.ids c.global, uses)
        else (if is_vertex c.type
            then ok (add_vert e c.ids c.global, uses)
            else err (unsupported_type c.type)))

unfoldable pub add_cell : Emitted → Uses → Cell → Result VtuError (Emitted × Uses)
unfolding cell_faces add_cell_of
add_cell e uses c = add_cell_of e uses c (cell_faces c.type)

unfoldable pub add_cells : Emitted → Uses → List Cell → Result VtuError (Emitted × Uses)
unfolding add_cell
add_cells e uses [] = ok (e, uses)
add_cells e uses (c ∷ cs) = add_cell e uses c >>= λ next. add_cells next.0 next.1 cs

-- The loop over `faceUse.values()`.
unfoldable pub add_faces : Emitted → List Face → Emitted
add_faces e [] = e
add_faces e (f ∷ fs) = add_faces (add_poly e f.ids f.cell) fs

-- The cells of a piece.
unfoldable pub emit_piece : Emitted → List Cell → Result VtuError Emitted
unfolding add_cells add_faces used_once use_faces
emit_piece e cells = add_cells e [] cells >>= λ next. ok (add_faces next.0 (used_once next.1))
