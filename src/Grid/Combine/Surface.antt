-- ===== src/Grid/Combine/Surface.antt =====
-- Theorems on `combinePieces` of frontend/src/lib/structuredGrid.ts as a whole.
use my_paraview_web.Common.{◌*◌, ◌<◌, ◌≡◌, List, map, length, All}
use my_paraview_web.Common.Result.{ok}
use my_paraview_web.Grid.Connectivity.Laws.{cell_array}
use my_paraview_web.Grid.Arrays.Points.{IsSized}
use my_paraview_web.Grid.Combine.{
  PieceSurface, StructuredSurface, total_of, compatible_array_names, merge_cell_array,
  emitted_cells, combine_pieces,
}
use my_paraview_web.Grid.Combine.Laws.{
  ArePieces, total_points, all_points, length-all_points, polys_of, lines_of, verts_of,
  append_pieces-new_geometry, ids-lt,
}
use my_paraview_web.Grid.Combine.PointData.{
  merged_array, compatible-HasArray, merge_point_arrays_lem,
}

-- The point arrays of each piece have a tuple for each of its points.
abbrev pub HavePointData : {V : Type 0} → List (PieceSurface V) → Type 0
HavePointData {V} ps =
    All (λ (p : PieceSurface V). All (IsSized p.number_of_points) p.point_arrays) ps

module _ {V : Type 0} (zero_value nan : V) (ps : List (PieceSurface V)) (hs : ArePieces ps) where
  -- The surface that the pieces describe: their points one after another; their cells one after
  -- another, moved by the points before their piece; the arrays that all pieces have.
  abbrev pub surface_of : StructuredSurface V
  surface_of = record {
    number_of_points = total_points ps;
    points = all_points ps;
    polys = cell_array (polys_of ps hs);
    lines = cell_array (lines_of ps hs);
    verts = cell_array (verts_of ps hs);
    point_arrays = map (merged_array ps) (compatible_array_names (λ p. p.point_arrays) ps);
    cell_arrays =
        map (merge_cell_array zero_value nan ps) (compatible_array_names (λ p. p.cell_arrays) ps);
    source_cell_count = total_of (λ p. p.source_cell_count) ps;
    primitive_count = length (emitted_cells ps);
  }

  -- Well-formed pieces are combined, with no error, into the surface that they describe: the points
  -- of all pieces in order, three coordinates for each, and the cells of all pieces in order, whose
  -- ids stay below the number of points.
  pub combine_pieces_lem :
      HavePointData ps
      → (combine_pieces zero_value nan ps ≡ ok surface_of)
        × (length (all_points ps) ≡ total_points ps * 3)
        × All (All (λ id. id < total_points ps)) (polys_of ps hs)
        × All (All (λ id. id < total_points ps)) (lines_of ps hs)
        × All (All (λ id. id < total_points ps)) (verts_of ps hs)
  unfolding combine_pieces
  combine_pieces_lem data_ok =
      let (in_polys, in_lines, in_verts) = ids-lt ps hs in
      (
        rw (
          append_pieces-new_geometry ps hs zero_value,
          merge_point_arrays_lem zero_value ps (compatible_array_names (λ p. p.point_arrays) ps)
              (compatible-HasArray ps data_ok),
        ),
        length-all_points ps hs,
        in_polys,
        in_lines,
        in_verts,
      )
