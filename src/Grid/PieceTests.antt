-- ===== src/Grid/PieceTests.antt =====
-- Runs of the readers of a piece and of the combination of two pieces, with natural numbers as the
-- values and 99 in the place of NaN.
use my_paraview_web.Common.{ℕ, ◌*◌, ◌<◌, ◌≡◌, refl, some, List, [], ◌∷◌, length, arith, All}
use my_paraview_web.Common.Int.{pos}
use my_paraview_web.Common.Result.{ok}
use my_paraview_web.Grid.Extent.{
  JsNumber, integer, Dimensions, parse_extent, has_unsafe, is_reversed,
}
use my_paraview_web.Grid.Arrays.{
  SurfaceArray, DataArray, read_attribute_arrays, read_structured_points,
}
use my_paraview_web.Grid.Arrays.Points.{IsSized}
use my_paraview_web.Grid.Combine.{PieceSurface, combine_pieces}
use my_paraview_web.Grid.Combine.Laws.{
  IsPiece, ArePieces, total_points, all_points, polys_of, lines_of, verts_of,
}
use my_paraview_web.Grid.Combine.Surface.{surface_of, combine_pieces_lem}
use my_paraview_web.Grid.Piece.{
  structured_grid, PieceElement, piece_surface, parse_piece, parse_pieces,
}
use my_paraview_web.Grid.Piece.Laws.{combine-parse_pieces}

abbrev sheet : Dimensions
sheet = record { nx = 2; ny = 1; nz = 3 }

abbrev heat : DataArray ℕ
heat = record { name = "heat"; components = integer (pos 1); values = 10 ∷ 20 ∷ [] }

abbrev heat_read : SurfaceArray ℕ
heat_read = record { name = "heat"; components = 1; values = 10 ∷ 20 ∷ [] }

heat_is_read : read_attribute_arrays 2 (heat ∷ []) ≡ ok (heat_read ∷ [])
unfolding read_attribute_arrays
heat_is_read = refl

-- A piece of two points in a line.
abbrev line_words : List JsNumber
line_words =
    integer (pos 0)
    ∷ integer (pos 1)
    ∷ integer (pos 0)
    ∷ integer (pos 0)
    ∷ integer (pos 0)
    ∷ integer (pos 0)
    ∷ []

abbrev line_element : PieceElement ℕ
line_element = record {
  extent = line_words;
  points = some (1 ∷ 2 ∷ 3 ∷ 4 ∷ 5 ∷ 6 ∷ []);
  coordinates = [];
  point_data = heat ∷ [];
  cell_data = [];
}

abbrev line_dimensions : Dimensions
line_dimensions = record { nx = 2; ny = 1; nz = 1 }

abbrev line_piece : PieceSurface ℕ
line_piece = piece_surface line_dimensions (1 ∷ 2 ∷ 3 ∷ 4 ∷ 5 ∷ 6 ∷ []) (heat_read ∷ []) []

line_parsed : parse_piece 99 structured_grid line_element ≡ ok line_piece
unfolding parse_piece parse_extent has_unsafe is_reversed read_structured_points
    read_attribute_arrays
line_parsed = refl

lines_parsed :
    parse_pieces 99 structured_grid (line_element ∷ line_element ∷ [])
    ≡ ok (line_piece ∷ line_piece ∷ [])
unfolding parse_pieces parse_piece parse_extent has_unsafe is_reversed read_structured_points
    read_attribute_arrays
lines_parsed = refl

combine-parse_pieces_example :
    (hs : ArePieces (line_piece ∷ line_piece ∷ [])) × (combine_pieces 0 99
        (line_piece ∷ line_piece ∷ [])
      ≡ ok (surface_of 0 99 (line_piece ∷ line_piece ∷ []) hs))
combine-parse_pieces_example =
    combine-parse_pieces 99 0 structured_grid (line_element ∷ line_element ∷ []) lines_parsed

abbrev segment : PieceSurface ℕ
segment = record {
  number_of_points = 2;
  source_cell_count = 1;
  points = 1 ∷ 2 ∷ 3 ∷ 4 ∷ 5 ∷ 6 ∷ [];
  polys = [];
  lines = 2 ∷ 0 ∷ 1 ∷ [];
  verts = [];
  poly_sources = [];
  line_sources = 0 ∷ [];
  vert_sources = [];
  point_arrays = heat_read ∷ [];
  cell_arrays = record { name = "cost"; components = 2; values = 3 ∷ 4 ∷ [] } ∷ [];
}

segment-IsPiece : IsPiece segment
segment-IsPiece = record {
  poly_cells = [];
  line_cells = (0 ∷ 1 ∷ []) ∷ [];
  vert_cells = [];
  points_sized = refl;
  polys_are = refl;
  lines_are = refl;
  verts_are = refl;
  poly_ids = tt;
  line_ids = ((omega arith, omega arith), tt);
  vert_ids = tt;
  polys_in = tt;
  lines_in = ((omega arith, (omega arith, tt)), tt);
  verts_in = tt;
}

abbrev segments : List (PieceSurface ℕ)
segments = segment ∷ segment ∷ []

segments-ArePieces : ArePieces segments
segments-ArePieces = (segment-IsPiece, (segment-IsPiece, tt))

segment-HasData : All (IsSized 2) (heat_read ∷ [])
segment-HasData = (record { some_component = omega arith; sized = refl }, tt)

combine_pieces_lem_example :
    (combine_pieces 0 99 segments ≡ ok (surface_of 0 99 segments segments-ArePieces))
    × (length (all_points segments) ≡ total_points segments * 3)
    × All (All (λ id. id < total_points segments)) (polys_of segments segments-ArePieces)
    × All (All (λ id. id < total_points segments)) (lines_of segments segments-ArePieces)
    × All (All (λ id. id < total_points segments)) (verts_of segments segments-ArePieces)
combine_pieces_lem_example =
    combine_pieces_lem 0 99 segments segments-ArePieces (segment-HasData, (segment-HasData, tt))
