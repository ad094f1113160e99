-- ===== src/Vtu/Surface/Parsed.antt =====
-- The loop over the pieces keeps its counts and its source cells consistent.
use my_paraview_web.Common.{
  ℕ, suc, ◌+◌, ◌≤◌, ◌<◌, true, Option, none, some, List, [], ◌∷◌, ◌++◌, ◌≡◌, refl, subst, length,
  length-append, concat_map, All, All-append, All-weaken, All-map, All-map_of, All-filter, either,
  arith, ◌==◌, get_elem?,
}
use my_paraview_web.Common.Result.{ok, >>=-eq-ok, ok-injective}
use my_paraview_web.Vtu.Faces.{Face, cell_faces, face_key}
use my_paraview_web.Vtu.Faces.Once.{occurrences}
use my_paraview_web.Vtu.Cells.{Cell, Emitted, cells_from, emit_piece, is_flat, is_line, is_vertex}
use my_paraview_web.Vtu.Cells.Emission.{
  all_faces, faces_or_none, boundary, flats, flat_of, line_of, vert_of, lines, verts, sources,
  emit_piece_lem,
}
use my_paraview_web.Vtu.Surface.{
  Parsing, PieceElement, parse_piece, parse_pieces, new_parsing, points_of, read_cells, topology_of,
  read_point_data, read_cell_data, no_cell_data,
}
use my_paraview_web.Vtu.Surface.Owner.{sum}

-- Faces that come from cells below a bound.
abbrev IsBelow : ℕ → List Face → Type 0
IsBelow n = All (λ f. f.cell < n)

abbrev AreBelow : ℕ → List Cell → Type 0
AreBelow n = All (λ c. c.global < n)

concat_map-IsBelow :
    (n : ℕ) (f : Cell → List Face) (cells : List Cell)
    → ((c : Cell) → c.global < n → IsBelow n (f c))
    → AreBelow n cells
    → IsBelow n (concat_map f cells)
concat_map-IsBelow n f [] h k = tt
concat_map-IsBelow n f (c ∷ cs) h (p, k) =
    All-append (λ x. x.cell < n) (f c) (concat_map f cs) (h c p) (concat_map-IsBelow n f cs h k)

flat_of-IsBelow :
    (n : ℕ) (c : Cell) (faces : Option (List (List ℕ))) → c.global < n → IsBelow n (flat_of c faces)
flat_of-IsBelow n c none h = either (IsBelow n) (is_flat c.type) _ _ (λ e. (h, tt)) (λ e. tt)
flat_of-IsBelow n c (some faces) h = tt

faces_or_none-IsBelow :
    (n : ℕ) (c : Cell) (faces : Option (List (List ℕ)))
    → c.global < n
    → IsBelow n (faces_or_none c faces)
faces_or_none-IsBelow n c none h = tt
faces_or_none-IsBelow n c (some faces) h = All-map (λ f. f.cell < n) _ faces (λ face. h)

flats-IsBelow : (n : ℕ) (cells : List Cell) → AreBelow n cells → IsBelow n (flats cells)
unfolding flats
flats-IsBelow n cells k =
    concat_map-IsBelow n (λ c. flat_of c (cell_faces c.type)) cells
      (λ c h. flat_of-IsBelow n c (cell_faces c.type) h) k

boundary-IsBelow : (n : ℕ) (cells : List Cell) → AreBelow n cells → IsBelow n (boundary cells)
unfolding boundary all_faces
boundary-IsBelow n cells k =
    let all =
      concat_map-IsBelow n (λ c. faces_or_none c (cell_faces c.type)) cells
        (λ c h. faces_or_none-IsBelow n c (cell_faces c.type) h) k in
    All-weaken (λ f. (f.cell < n) × ((occurrences (face_key f.ids) (all_faces cells) == 1) ≡ true))
      (boundary cells) (λ f p. p.0)
      (All-filter (λ f. f.cell < n) (λ f. occurrences (face_key f.ids) (all_faces cells) == 1)
        (all_faces cells) all)

lines-IsBelow : (n : ℕ) (cells : List Cell) → AreBelow n cells → IsBelow n (lines cells)
unfolding lines
lines-IsBelow n cells k =
    concat_map-IsBelow n line_of cells
      (λ c h. either (IsBelow n) (is_line c.type) _ _ (λ e. (h, tt)) (λ e. tt)) k

verts-IsBelow : (n : ℕ) (cells : List Cell) → AreBelow n cells → IsBelow n (verts cells)
unfolding verts
verts-IsBelow n cells k =
    concat_map-IsBelow n vert_of cells
      (λ c h. either (IsBelow n) (is_vertex c.type) _ _ (λ e. (h, tt)) (λ e. tt)) k

sources-below : (n : ℕ) (fs : List Face) → IsBelow n fs → All (λ g. g < n) (sources fs)
sources-below n fs h = All-map_of (λ g. g < n) (λ f. f.cell) fs (λ f p. p) h

more_below :
    (n m : ℕ) (xs : List ℕ) (fs : List Face)
    → n ≤ m
    → All (λ g. g < n) xs
    → IsBelow m fs
    → All (λ g. g < m) (xs ++ sources fs)
more_below n m xs fs le h k =
    All-append (λ g. g < m) xs (sources fs) (All-weaken (λ g. g < n) xs (λ g r. omega arith) h)
      (sources-below m fs k)

-- The source cells of what is emitted are below a bound.
abbrev pub IsEmittedBelow : ℕ → Emitted → Type 0
IsEmittedBelow n e =
    All (λ g. g < n) e.vert_sources
    × All (λ g. g < n) e.line_sources
    × All (λ g. g < n) e.poly_sources

emit_piece-IsEmittedBelow :
    (n m : ℕ) (e : Emitted) (cells : List Cell) {out : Emitted}
    → n ≤ m
    → IsEmittedBelow n e
    → AreBelow m cells
    → emit_piece e cells ≡ ok out
    → IsEmittedBelow m out
emit_piece-IsEmittedBelow n m e cells le (v, l, p) k h = rw (emit_piece_lem e cells h) (
  more_below n m e.vert_sources (verts cells) le v (verts-IsBelow m cells k),
  more_below n m e.line_sources (lines cells) le l (lines-IsBelow m cells k),
  more_below n m e.poly_sources (flats cells ++ boundary cells) le p (
      All-append (λ f. f.cell < m) (flats cells) (boundary cells) (flats-IsBelow m cells k)
        (boundary-IsBelow m cells k)),
)

cells_from-AreBelow :
    (connectivity offsets types : List ℕ) (off total cell : ℕ) (start : Option ℕ)
    → AreBelow
        (total + cell + length types)
        (cells_from connectivity offsets off total cell start types)
unfolding cells_from
cells_from-AreBelow connectivity offsets [] off total cell start = tt
cells_from-AreBelow connectivity offsets (t ∷ ts) off total cell start =
    let same : total + (cell + 1) + length ts ≡ total + cell + suc (length ts) = omega arith in
    let later = get_elem? offsets cell in
    (
      omega arith,
      rw same at (cells_from-AreBelow connectivity offsets ts off total (cell + 1) later),
    )

sum-append : (xs ys : List ℕ) → sum (xs ++ ys) ≡ sum xs + sum ys
sum-append [] ys = omega arith
sum-append (x ∷ xs) ys = omega (arith, sum-append xs ys)

module _ {V : Type 0} where
  -- The counts of cells add up, each piece has its maps, and what is emitted comes from cells of the
  -- pieces that are read.
  pub record IsParsed (s : Parsing V) : Type 0 where
    pub counted : sum s.cell_counts ≡ s.total_cells
    pub paired : length s.cell_data ≡ length s.cell_counts
    pub below : IsEmittedBelow s.total_cells s.emitted

  parse_piece-IsParsed :
      (s : Parsing V) (piece : PieceElement V) {next : Parsing V}
      → IsParsed s
      → parse_piece s piece ≡ ok next
      → IsParsed next
  unfolding parse_piece
  parse_piece-IsParsed s piece inv h =
      let (points, h0, h1) = >>=-eq-ok (points_of piece.points) _ h in
      let (arrays, h2, h3) = >>=-eq-ok (read_cells [] piece.cells) _ h1 in
      let (topology, h4, h5) = >>=-eq-ok (topology_of arrays) _ h3 in
      let (point_arrays, h6, h7) =
        >>=-eq-ok (read_point_data s.point_arrays piece.point_data) _ h5 in
      let (cell_data, h8, h9) = >>=-eq-ok (read_cell_data no_cell_data piece.cell_data) _ h7 in
      let cells =
        cells_from topology.0 topology.1 s.point_offset s.total_cells 0 (some 0) topology.2 in
      let (emitted, h10, h11) = >>=-eq-ok (emit_piece s.emitted cells) _ h9 in
      let same : s.total_cells + 0 + length topology.2 ≡ s.total_cells + length topology.2 =
        omega arith in
      let below = rw same at (
        cells_from-AreBelow topology.0 topology.1 topology.2 s.point_offset s.total_cells 0
          (some 0)) in
      subst IsParsed (ok-injective h11) (record {
        counted =
            let c = inv.counted in omega (arith, sum-append s.cell_counts (length topology.2 ∷ []));
        paired =
            let c = inv.paired in
            omega (
              arith,
              length-append s.cell_counts (length topology.2 ∷ []),
              length-append s.cell_data (cell_data ∷ []),
            );
        below =
            emit_piece-IsEmittedBelow s.total_cells (s.total_cells + length topology.2) s.emitted
              cells (omega arith) inv.below below h10;
      })

  -- After any pieces that are read, the counts of their cells add up to the cells of the file, each
  -- piece has its maps of cell data, and every source cell of what is emitted is a cell of the file.
  pub parse_pieces-IsParsed :
      (pieces : List (PieceElement V)) (s : Parsing V) {out : Parsing V}
      → IsParsed s
      → parse_pieces s pieces ≡ ok out
      → IsParsed out
  unfolding parse_pieces
  parse_pieces-IsParsed [] s inv h = subst IsParsed (ok-injective h) inv
  parse_pieces-IsParsed (piece ∷ rest) s inv h =
      let (next, one, later) = >>=-eq-ok (parse_piece s piece) _ h in
      parse_pieces-IsParsed rest next (parse_piece-IsParsed s piece inv one) later

  pub new_parsing-IsParsed : IsParsed new_parsing
  new_parsing-IsParsed = record { counted = refl; paired = refl; below = (tt, tt, tt) }
