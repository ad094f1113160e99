-- ===== src/Vtu/Tests.antt =====
-- vtu.ts on small files: two tetrahedra that share a face, a pixel, a line and an unknown type.
use mathlib.Core.Quot.{Quot}
use my_paraview_web.Common.{
  ℕ, ◌≡◌, refl, ◌↔◌, false, some, List, [], ◌∷◌, map, filter, length, find?, All, is_empty, arith,
}
use my_paraview_web.Common.Eq.{codes}
use my_paraview_web.Common.Result.{ok, err}
use my_paraview_web.VtkXml.Bytes.{empty_array}
use my_paraview_web.Vtu.Faces.{face_key, cell_faces}
use my_paraview_web.Vtu.Faces.Corners.{number}
use my_paraview_web.Vtu.Faces.Order.{Bag, face_key-Bag}
use my_paraview_web.Vtu.Cells.{
  no_pieces, unreadable, unsupported_type, Cell, Emitted, cells_from, emit_piece,
}
use my_paraview_web.Vtu.Cells.Emission.{boundary}
use my_paraview_web.Vtu.Cells.Types.{expected, is_unknown, emit_piece-expected}
use my_paraview_web.Vtu.Surface.{
  PieceElement, Parsing, VtuSurface, parse_vtu_surface, parse_pieces, new_parsing, starts_from,
  cell_array_names, piece_for_cell, emitted_sources,
}
use my_paraview_web.Vtu.Surface.Owner.{Holds, piece_for_cell-Holds}
use my_paraview_web.Vtu.Surface.Listed.{in_each_piece}
use my_paraview_web.Vtu.Surface.Whole.{IsFromSource, parse_vtu_surface-IsFromSource}

abbrev nothing : Emitted
nothing = record {
  poly_ids = [];
  line_ids = [];
  vert_ids = [];
  poly_sources = [];
  line_sources = [];
  vert_sources = [];
}

-- Two tetrahedra with the face 1, 2, 3 in common, and a pixel on 0, 1, 2, 3.
abbrev three_cells : List Cell
three_cells =
    cells_from (0 ∷ 1 ∷ 2 ∷ 3 ∷ 4 ∷ 3 ∷ 2 ∷ 1 ∷ 0 ∷ 1 ∷ 2 ∷ 3 ∷ []) (4 ∷ 8 ∷ 12 ∷ []) 0 0 0 (some 0)
      (10 ∷ 10 ∷ 8 ∷ [])

abbrev bad_cells : List Cell
bad_cells = cells_from (0 ∷ 1 ∷ 2 ∷ []) (1 ∷ 2 ∷ 3 ∷ []) 0 0 0 (some 0) (1 ∷ 42 ∷ 77 ∷ [])

boundary_cells : map (λ f. f.cell) (boundary three_cells) ≡ 0 ∷ 0 ∷ 0 ∷ 1 ∷ 1 ∷ 1 ∷ []
unfolding boundary cells_from face_key cell_faces
boundary_cells = refl

emit_piece_bad : emit_piece nothing bad_cells ≡ err (unsupported_type 42)
unfolding emit_piece cells_from
emit_piece_bad = refl

emit_piece-expected_example :
    emit_piece nothing three_cells ≡ expected nothing three_cells (find? is_unknown three_cells)
emit_piece-expected_example = emit_piece-expected nothing three_cells

face_key-Bag_example :
    (face_key (map number (2 ∷ 0 ∷ 3 ∷ [])) ≡ face_key (map number (3 ∷ 2 ∷ 0 ∷ [])))
    ↔ (◌≡◌ {A = Bag} (Quot.mk (2 ∷ 0 ∷ 3 ∷ [])) (Quot.mk (3 ∷ 2 ∷ 0 ∷ [])))
face_key-Bag_example = face_key-Bag (2 ∷ 0 ∷ 3 ∷ []) (3 ∷ 2 ∷ 0 ∷ [])

-- The middle piece has no cells.
piece_for_cell-Holds_example :
    Holds (2 ∷ 0 ∷ 3 ∷ []) 2 (piece_for_cell (starts_from 0 (2 ∷ 0 ∷ 3 ∷ [])) 2)
piece_for_cell-Holds_example = piece_for_cell-Holds (2 ∷ 0 ∷ 3 ∷ []) 2 (omega arith)

abbrev piece : PieceElement ℕ
piece = record {
  number_of_points = 4;
  points = some (ok (0 ∷ 0 ∷ 0 ∷ 1 ∷ 0 ∷ 0 ∷ 0 ∷ 1 ∷ 0 ∷ 0 ∷ 0 ∷ 1 ∷ []));
  cells =
      (codes "connectivity", ok (0 ∷ 1 ∷ 2 ∷ 3 ∷ 0 ∷ 3 ∷ []))
      ∷ (codes "offsets", ok (4 ∷ 6 ∷ []))
      ∷ (codes "types", ok (10 ∷ 3 ∷ []))
      ∷ [];
  point_data = record { name = codes "t"; components = 1; values = ok (5 ∷ 6 ∷ 7 ∷ 8 ∷ []) } ∷ [];
  cell_data =
      record { name = codes "c"; components = 2; values = ok (21 ∷ 22 ∷ 31 ∷ 32 ∷ []) } ∷ [];
}

abbrev two_pieces : List (PieceElement ℕ)
two_pieces = piece ∷ piece ∷ []

abbrev expected_surface : VtuSurface ℕ
expected_surface = record {
  number_of_points = 8;
  points =
      0 ∷ 0 ∷ 0 ∷ 1 ∷ 0 ∷ 0 ∷ 0 ∷ 1 ∷ 0 ∷ 0 ∷ 0 ∷ 1 ∷ 0 ∷ 0 ∷ 0 ∷ 1 ∷ 0 ∷ 0 ∷ 0 ∷ 1 ∷ 0 ∷ 0 ∷ 0 ∷ 1
      ∷ [];
  polys =
      3 ∷ 0 ∷ 1 ∷ 3 ∷ 3 ∷ 1 ∷ 2 ∷ 3 ∷ 3 ∷ 2 ∷ 0 ∷ 3 ∷ 3 ∷ 0 ∷ 2 ∷ 1 ∷ 3 ∷ 4 ∷ 5 ∷ 7 ∷ 3 ∷ 5 ∷ 6 ∷ 7
      ∷ 3 ∷ 6 ∷ 4 ∷ 7 ∷ 3 ∷ 4 ∷ 6 ∷ 5 ∷ [];
  lines = 2 ∷ 0 ∷ 3 ∷ 2 ∷ 4 ∷ 7 ∷ [];
  verts = [];
  point_arrays =
      record { name = codes "t"; components = 1; values = 5 ∷ 6 ∷ 7 ∷ 8 ∷ 5 ∷ 6 ∷ 7 ∷ 8 ∷ [] } ∷ [];
  cell_arrays =
      record {
        name = codes "c";
        components = 2;
        values =
            31 ∷ 32 ∷ 31 ∷ 32 ∷ 21 ∷ 22 ∷ 21 ∷ 22 ∷ 21 ∷ 22 ∷ 21 ∷ 22 ∷ 21 ∷ 22 ∷ 21 ∷ 22 ∷ 21 ∷ 22
            ∷ 21 ∷ 22 ∷ [];
      }
      ∷ [];
  source_cell_count = 4;
  poly_count = 8;
}

surface_is_read : parse_vtu_surface 0 two_pieces ≡ ok expected_surface
unfolding parse_vtu_surface
surface_is_read = refl

no_piece : parse_vtu_surface {V = ℕ} 0 [] ≡ err no_pieces
unfolding parse_vtu_surface
no_piece = refl

-- The error of an attribute comes before that of the cells.
error_order :
    parse_vtu_surface 0 (
      record piece {
        cell_data = record { name = []; components = 1; values = err empty_array } ∷ [];
      }
      ∷ [])
    ≡ err (unreadable empty_array)
unfolding parse_vtu_surface
error_order = refl

parse_vtu_surface-IsFromSource_example :
    (s : Parsing ℕ) × (is_empty two_pieces ≡ false)
    × (parse_pieces new_parsing two_pieces ≡ ok s)
    × (8 ≡ length s.emitted.poly_sources)
    × (codes "c" ∷ []
        ≡ filter
            (in_each_piece s.cell_data (starts_from 0 s.cell_counts) (emitted_sources s.emitted))
            (cell_array_names [] s.cell_data))
    × All
        (IsFromSource 0 s.cell_data s.cell_counts (emitted_sources s.emitted))
        expected_surface.cell_arrays
parse_vtu_surface-IsFromSource_example =
    parse_vtu_surface-IsFromSource 0 two_pieces {surface = expected_surface} surface_is_read
