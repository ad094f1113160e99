-- ===== src/Grid/Piece.antt =====
-- `parsePiece` and `parseStructuredSurface` of frontend/src/lib/structuredGrid.ts, from the decoded
-- contents of the Piece elements. The document, its decoding and the rewording of error messages
-- are not modelled; where two readers of one piece fail at once, the first in the text is reported.
pub mod Laws
use my_paraview_web.Common.{ℕ, Option, none, some, List, [], ◌∷◌, map}
use my_paraview_web.Common.Result.{Result, ok, err, ◌>>=◌, ◌>>◌}
use my_paraview_web.Grid.Extent.{JsNumber, Dimensions, parse_extent, point_count, cell_count}
use my_paraview_web.Grid.Topology.{Topology, build_piece_topology, connectivity, sources}
use my_paraview_web.Grid.Arrays.{
  GridError, invalid_extent, DataArray, SurfaceArray, read_attribute_arrays, read_structured_points,
  read_rectilinear_points,
}
use my_paraview_web.Grid.Combine.{PieceSurface, StructuredSurface, combine_pieces, check_pieces}

pub data GridType : Type 0 where
  structured_grid rectilinear_grid : GridType

-- The contents of a Piece element: the words of its Extent, the DataArray below Points, those below
-- Coordinates, PointData and CellData.
pub record PieceElement (V : Type 0) : Type 0 where
  pub extent : List JsNumber
  pub points : Option (List V)
  pub coordinates : List (List V)
  pub point_data : List (DataArray V)
  pub cell_data : List (DataArray V)

abbrev pub dimensions_of : Option Dimensions → Result GridError Dimensions
dimensions_of none = err invalid_extent
dimensions_of (some d) = ok d

module _ {V : Type 0} where
  unfoldable pub piece_surface :
      Dimensions → List V → List (SurfaceArray V) → List (SurfaceArray V) → PieceSurface V
  piece_surface d points point_arrays cell_arrays =
      let t = build_piece_topology d in
      record {
        number_of_points = point_count d;
        source_cell_count = cell_count d;
        points = points;
        polys = connectivity d t.polys;
        lines = connectivity d t.lines;
        verts = connectivity d t.verts;
        poly_sources = sources d t.polys;
        line_sources = sources d t.lines;
        vert_sources = sources d t.verts;
        point_arrays = point_arrays;
        cell_arrays = cell_arrays;
      }

  pub all_dimensions : List (PieceElement V) → Result GridError (List Dimensions)
  all_dimensions [] = ok []
  all_dimensions (piece ∷ rest) = do
    d ← dimensions_of (parse_extent piece.extent)
    ds ← all_dimensions rest
    ok (d ∷ ds)

  abbrev pub read_points : V → GridType → Dimensions → PieceElement V → Result GridError (List V)
  read_points nan structured_grid d piece = read_structured_points d piece.points
  read_points nan rectilinear_grid d piece = read_rectilinear_points nan d piece.coordinates

  module _ (nan : V) (source_type : GridType) where
    unfoldable pub parse_piece : PieceElement V → Result GridError (PieceSurface V)
    parse_piece piece = do
      d ← dimensions_of (parse_extent piece.extent)
      points ← read_points nan source_type d piece
      point_arrays ← read_attribute_arrays (point_count d) piece.point_data
      cell_arrays ← read_attribute_arrays (cell_count d) piece.cell_data
      ok (piece_surface d points point_arrays cell_arrays)

    unfoldable pub parse_pieces : List (PieceElement V) → Result GridError (List (PieceSurface V))
    parse_pieces [] = ok []
    parse_pieces (piece ∷ rest) = do p ← parse_piece piece; ps ← parse_pieces rest; ok (p ∷ ps)

    pub parse_structured_surface :
        V → List (PieceElement V) → Result GridError (StructuredSurface V)
    parse_structured_surface zero_value pieces = do
      ds ← all_dimensions pieces
      check_pieces ds
      ps ← parse_pieces pieces
      combine_pieces zero_value nan ps
