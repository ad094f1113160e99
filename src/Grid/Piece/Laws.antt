-- ===== src/Grid/Piece/Laws.antt =====
-- Theorems on `parsePiece` of frontend/src/lib/structuredGrid.ts.
use my_paraview_web.Common.{
  ℕ, ◌*◌, ◌<◌, ◌≡◌, refl, subst, Option, none, some, List, [], ◌∷◌, ◌++◌, map, length, All,
  All-map_of, All-weaken, All-append_split, Option-cases, Bool-cases, inl, inr, ◌==◌, ==_iff, arith,
  length-map,
}
use my_paraview_web.Common.Result.{ok, >>=-eq-ok, ok-injective}
use my_paraview_web.Grid.Extent.{
  JsNumber, Dimensions, IsGrid, parse_extent, point_count, cell_count,
}
use my_paraview_web.Grid.Extent.Laws.{parse_extent-IsGrid}
use my_paraview_web.Grid.Topology.{Primitive, build_piece_topology, connectivity, ids, flat_id}
use my_paraview_web.Grid.Topology.Cells.{IsCell, build_piece_topology-IsCell, IsCell-ids}
use my_paraview_web.Grid.Connectivity.Laws.{cell_array, IsCellIds}
use my_paraview_web.Grid.Arrays.{SurfaceArray, read_structured_points}
use my_paraview_web.Grid.Arrays.Points.{
  IsSized, read_rectilinear_points-sized, read_attribute_arrays-IsSized,
}
use my_paraview_web.Grid.Combine.{PieceSurface, combine_pieces}
use my_paraview_web.Grid.Combine.Laws.{IsPiece, ArePieces}
use my_paraview_web.Grid.Combine.Surface.{surface_of, combine_pieces_lem}
use my_paraview_web.Grid.Piece.{
  GridType, structured_grid, rectilinear_grid, PieceElement, dimensions_of, piece_surface,
  read_points, parse_piece, parse_pieces,
}

connectivity-cell_array :
    (d : Dimensions) (qs : List Primitive) → connectivity d qs ≡ cell_array (map (ids d) qs)
unfolding connectivity ids
connectivity-cell_array d [] = refl
connectivity-cell_array d (q ∷ qs) =
    rw (length-map (flat_id d) q.corners, connectivity-cell_array d qs)

abbrev RefersTo : ℕ → List ℕ → Type 0
RefersTo n cell = IsCellIds cell × All (λ id. id < n) cell

IsCell-RefersTo : (d : Dimensions) (q : Primitive) → IsCell d q → RefersTo (point_count d) (ids d q)
unfolding ids
IsCell-RefersTo d q h = (
  omega (arith, length-map (flat_id d) q.corners, h.some_corner, h.few_corners),
  (IsCell-ids d q h).0,
)

module _ (d : Dimensions) (qs : List Primitive) (h : All (IsCell d) qs) where
  abbrev cells : List (List ℕ)
  cells = map (ids d) qs

  cells-RefersTo : All (RefersTo (point_count d)) cells
  cells-RefersTo = All-map_of _ (ids d) qs (IsCell-RefersTo d) h

  cells-IsCellIds : All IsCellIds cells
  cells-IsCellIds = All-weaken _ cells (λ c p. p.0) cells-RefersTo

  cells-lt : All (All (λ id. id < point_count d)) cells
  cells-lt = All-weaken _ cells (λ c p. p.1) cells-RefersTo

module _ {V : Type 0} where
  piece_surface-IsPiece :
      (d : Dimensions) (points : List V) (pa ca : List (SurfaceArray V))
      → IsGrid d
      → length points ≡ point_count d * 3
      → IsPiece (piece_surface d points pa ca)
  unfolding piece_surface
  piece_surface-IsPiece d points pa ca g sized =
      let t = build_piece_topology d in
      let (v, rest) =
        All-append_split (IsCell d) t.verts (t.lines ++ t.polys)
          (build_piece_topology-IsCell d g) in
      let (l, p) = All-append_split (IsCell d) t.lines t.polys rest in
      record {
        poly_cells = map (ids d) t.polys;
        line_cells = map (ids d) t.lines;
        vert_cells = map (ids d) t.verts;
        points_sized = sized;
        polys_are = connectivity-cell_array d t.polys;
        lines_are = connectivity-cell_array d t.lines;
        verts_are = connectivity-cell_array d t.verts;
        poly_ids = cells-IsCellIds d t.polys p;
        line_ids = cells-IsCellIds d t.lines l;
        vert_ids = cells-IsCellIds d t.verts v;
        polys_in = cells-lt d t.polys p;
        lines_in = cells-lt d t.lines l;
        verts_in = cells-lt d t.verts v;
      }

  -- What a piece that was parsed satisfies.
  abbrev pub IsParsed : PieceSurface V → Type 0
  IsParsed p =
      IsPiece p
      × All (IsSized p.number_of_points) p.point_arrays
      × All (IsSized p.source_cell_count) p.cell_arrays

  piece_surface-IsParsed :
      (d : Dimensions) (points : List V) (pa ca : List (SurfaceArray V))
      → IsPiece (piece_surface d points pa ca)
      → All (IsSized (point_count d)) pa
      → All (IsSized (cell_count d)) ca
      → IsParsed (piece_surface d points pa ca)
  unfolding piece_surface
  piece_surface-IsParsed d points pa ca h k l = (h, k, l)

  IsParsed-cons :
      (p : PieceSurface V) (ps : List (PieceSurface V))
      → IsParsed p
      → All IsParsed ps
      → All IsParsed (p ∷ ps)
  IsParsed-cons p ps h hs = (h, hs)

  structured-sized :
      (d : Dimensions) (source : Option (List V)) {points : List V}
      → read_structured_points d source ≡ ok points
      → length points ≡ point_count d * 3
  unfolding read_structured_points
  structured-sized d none h = cc
  structured-sized d (some values) h = elim (Bool-cases (length values == point_count d * 3)) [
    | inl same ↦ rw (ok-injective (rw same at h)) at ((==_iff _ _).0 same)
    | inr differs ↦ let bad = rw differs at h in cc
  ]

  module _ (nan : V) where
    read_points-sized :
        (kind : GridType) (d : Dimensions) (piece : PieceElement V) {points : List V}
        → read_points nan kind d piece ≡ ok points
        → length points ≡ point_count d * 3
    read_points-sized structured_grid d piece h = structured-sized d piece.points h
    read_points-sized rectilinear_grid d piece h =
        read_rectilinear_points-sized nan d piece.coordinates h

    dimensions_of-IsGrid :
        (raw : List JsNumber) {d : Dimensions} → dimensions_of (parse_extent raw) ≡ ok d → IsGrid d
    dimensions_of-IsGrid raw h = elim (Option-cases (parse_extent raw)) [
      | inl bad ↦ let h' = rw bad at h in cc
      | inr (d', good) ↦ rw (ok-injective (rw good at h)) at (parse_extent-IsGrid raw d' good)
    ]

    -- A piece that is parsed is well formed, and its arrays have a tuple for each point, or for each
    -- cell.
    pub parse_piece-IsParsed :
        (kind : GridType) (piece : PieceElement V) {p : PieceSurface V}
        → parse_piece nan kind piece ≡ ok p
        → IsParsed p
    unfolding parse_piece
    parse_piece-IsParsed kind piece h =
        let (d, dims, h1) = >>=-eq-ok _ _ h in
        let (points, read, h2) = >>=-eq-ok _ _ h1 in
        let (pa, pa_read, h3) = >>=-eq-ok _ _ h2 in
        let (ca, ca_read, h4) = >>=-eq-ok _ _ h3 in
        let sized = read_points-sized kind d piece read in
        let shape =
          piece_surface-IsPiece d points pa ca (dimensions_of-IsGrid piece.extent dims) sized in
        rw (ok-injective h4) at (
          piece_surface-IsParsed d points pa ca shape
            (read_attribute_arrays-IsSized (point_count d) piece.point_data pa_read)
            (read_attribute_arrays-IsSized (cell_count d) piece.cell_data ca_read))

    parse_pieces-IsParsed :
        (kind : GridType) (pieces : List (PieceElement V)) {ps : List (PieceSurface V)}
        → parse_pieces nan kind pieces ≡ ok ps
        → All IsParsed ps
    unfolding parse_pieces
    parse_pieces-IsParsed kind [] h = subst (All IsParsed) (ok-injective h) (tt {0})
    parse_pieces-IsParsed kind (piece ∷ pieces) h =
        let (p, first, h1) = >>=-eq-ok _ _ h in
        let (ps, rest, h2) = >>=-eq-ok _ _ h1 in
        subst (All IsParsed) (ok-injective h2) (
          IsParsed-cons p ps (parse_piece-IsParsed kind piece first)
            (parse_pieces-IsParsed kind pieces rest))

    module _ (zero_value : V) where
      All-IsParsed-pieces : (ps : List (PieceSurface V)) → All IsParsed ps → ArePieces ps
      All-IsParsed-pieces ps h = All-weaken _ ps (λ p q. q.0) h

      -- Once the pieces of a document are read, combining them does not fail, and gives the surface
      -- that they describe.
      pub combine-parse_pieces :
          (kind : GridType) (pieces : List (PieceElement V)) {ps : List (PieceSurface V)}
          → parse_pieces nan kind pieces ≡ ok ps
          → (hs : ArePieces ps) × (combine_pieces zero_value nan ps
              ≡ ok (surface_of zero_value nan ps hs))
      combine-parse_pieces kind pieces {ps} h =
          let parsed = parse_pieces-IsParsed kind pieces h in
          let hs = All-IsParsed-pieces ps parsed in
          (hs, (combine_pieces_lem zero_value nan ps hs (All-weaken _ ps (λ p q. q.1) parsed)).0)
