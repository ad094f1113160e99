-- ===== src/Grid/Combine/Laws.antt =====
-- Lemmas on the points and the connectivity of `combinePieces`,
-- frontend/src/lib/structuredGrid.ts.
use my_paraview_web.Common.{
  ℕ, ◌+◌, ◌*◌, ◌<◌, ◌≡◌, refl, sym, ◌∙◌, ap, List, [], ◌∷◌, ◌++◌, map, length, replicate,
  write_at-filled, concat_map, All, All-append, All-weaken, All-map_of, length-append, append_assoc,
  append-nil, arith,
}
use my_paraview_web.Common.Result.{ok}
use my_paraview_web.Grid.Connectivity.Laws.{
  cell_array, IsCellIds, shift, append_connectivity-cell_array,
}
use my_paraview_web.Grid.Combine.{PieceSurface, total_of, append_piece, append_pieces, new_geometry}

-- What a parsed piece is: three coordinates a point, and connectivity arrays of cells, none of
-- them empty, that refer to points of the piece only.
pub record IsPiece {V : Type 0} (p : PieceSurface V) : Type 0 where
  pub poly_cells : List (List ℕ)
  pub line_cells : List (List ℕ)
  pub vert_cells : List (List ℕ)
  pub points_sized : length p.points ≡ p.number_of_points * 3
  pub polys_are : p.polys ≡ cell_array poly_cells
  pub lines_are : p.lines ≡ cell_array line_cells
  pub verts_are : p.verts ≡ cell_array vert_cells
  pub poly_ids : All IsCellIds poly_cells
  pub line_ids : All IsCellIds line_cells
  pub vert_ids : All IsCellIds vert_cells
  pub polys_in : All (All (λ id. id < p.number_of_points)) poly_cells
  pub lines_in : All (All (λ id. id < p.number_of_points)) line_cells
  pub verts_in : All (All (λ id. id < p.number_of_points)) vert_cells

cell_array-append : (xs ys : List (List ℕ)) → cell_array (xs ++ ys) ≡ cell_array xs ++ cell_array ys
cell_array-append [] ys = refl
cell_array-append (x ∷ xs) ys =
    ap (length x ∷◌)
      (ap (x ++◌) (cell_array-append xs ys) ∙ sym (append_assoc x (cell_array xs) (cell_array ys)))

module _ {V : Type 0} where
  -- The pieces with what makes each of them well formed.
  abbrev pub ArePieces : List (PieceSurface V) → Type 0
  ArePieces = All IsPiece

  -- Each piece's cells, with the number of the points of all pieces before it added.
  pub shifted_cells :
      ((p : PieceSurface V) → IsPiece p → List (List ℕ))
      → ℕ
      → (ps : List (PieceSurface V)) → ArePieces ps
      → List (List ℕ)
  shifted_cells cells offset [] h = []
  shifted_cells cells offset (p ∷ ps) (h, hs) =
      map (shift offset) (cells p h) ++ shifted_cells cells (offset + p.number_of_points) ps hs

  pub all_points : List (PieceSurface V) → List V
  all_points = concat_map (λ p. p.points)

  pub length-all_points :
      (ps : List (PieceSurface V))
      → ArePieces ps
      → length (all_points ps) ≡ total_of (λ p. p.number_of_points) ps * 3
  unfolding all_points total_of
  length-all_points [] hs = refl
  length-all_points (p ∷ ps) (h, hs) =
      omega (arith, length-append p.points (all_points ps), h.points_sized, length-all_points ps hs)

  append_piece_lem :
      (zero_value : V) (filled : List V) (polys lines verts : List ℕ) (offset rest : ℕ)
      (p : PieceSurface V) (h : IsPiece p)
      → length filled ≡ offset * 3
      → append_piece
          (record {
            points = filled ++ replicate (p.number_of_points * 3 + rest) zero_value;
            polys = polys;
            lines = lines;
            verts = verts;
            point_offset = offset;
          })
          p
        ≡ ok (record {
          points = (filled ++ p.points) ++ replicate rest zero_value;
          polys = polys ++ cell_array (map (shift offset) h.poly_cells);
          lines = lines ++ cell_array (map (shift offset) h.line_cells);
          verts = verts ++ cell_array (map (shift offset) h.vert_cells);
          point_offset = offset + p.number_of_points;
        })
  unfolding append_piece
  append_piece_lem zero_value filled polys lines verts offset rest p h e = rw (
    write_at-filled filled p.points (offset * 3) (p.number_of_points * 3 + rest) rest zero_value
        (sym e) (let s = h.points_sized in omega arith),
    h.polys_are,
    append_connectivity-cell_array polys h.poly_cells offset h.poly_ids,
    h.lines_are,
    append_connectivity-cell_array lines h.line_cells offset h.line_ids,
    h.verts_are,
    append_connectivity-cell_array verts h.vert_cells offset h.vert_ids,
  )

  append_pieces_lem :
      (zero_value : V) (filled : List V) (polys lines verts : List ℕ) (offset : ℕ)
      (ps : List (PieceSurface V)) (hs : ArePieces ps)
      → length filled ≡ offset * 3
      → append_pieces
          (record {
            points = filled ++ replicate (total_of (λ p. p.number_of_points) ps * 3) zero_value;
            polys = polys;
            lines = lines;
            verts = verts;
            point_offset = offset;
          })
          ps
        ≡ ok (record {
          points = filled ++ all_points ps;
          polys = polys ++ cell_array (shifted_cells (λ p h. h.poly_cells) offset ps hs);
          lines = lines ++ cell_array (shifted_cells (λ p h. h.line_cells) offset ps hs);
          verts = verts ++ cell_array (shifted_cells (λ p h. h.vert_cells) offset ps hs);
          point_offset = offset + total_of (λ p. p.number_of_points) ps;
        })
  unfolding append_pieces total_of shifted_cells all_points
  append_pieces_lem z filled polys lines verts offset [] hs e =
      let here : offset + 0 ≡ offset = omega arith in simp (here, append-nil)
  append_pieces_lem z filled polys lines verts offset (p ∷ ps) (h, hs) e =
      let n = p.number_of_points in
      let total = total_of (λ p. p.number_of_points) ps in
      let split : (n + total) * 3 ≡ n * 3 + total * 3 = omega arith in
      let sum : offset + (n + total) ≡ offset + n + total = omega arith in
      let step = append_piece_lem z filled polys lines verts offset (total * 3) p h e in
      let longer : length (filled ++ p.points) ≡ (offset + n) * 3 =
        omega (arith, length-append filled p.points, h.points_sized) in
      rw (split, step, sum)
        (simp (cell_array-append, ← append_assoc)
          (append_pieces_lem z (filled ++ p.points) _ _ _ (offset + n) ps hs longer))

  shifted_cells-lt :
      (cells : (p : PieceSurface V) → IsPiece p → List (List ℕ))
      → ((p : PieceSurface V) (h : IsPiece p)
          → All (All (λ id. id < p.number_of_points)) (cells p h))
      → (offset : ℕ) (ps : List (PieceSurface V)) (hs : ArePieces ps)
      → All
          (All (λ id. id < offset + total_of (λ p. p.number_of_points) ps))
          (shifted_cells cells offset ps hs)
  unfolding shifted_cells total_of
  shifted_cells-lt cells k offset [] hs = tt
  shifted_cells-lt cells k offset (p ∷ ps) (h, hs) =
      let later = shifted_cells-lt cells k (offset + p.number_of_points) ps hs in
      All-append _ (map (shift offset) (cells p h)) _
        (All-map_of _ (shift offset) (cells p h)
          (λ ids q. All-map_of _ (λ id. id + offset) ids (λ id lt. omega arith) q) (k p h))
        (All-weaken _ _ (λ ids q. All-weaken _ ids (λ id lt. omega arith) q) later)

-- The number of points of all pieces.
abbrev pub total_points : {V : Type 0} → List (PieceSurface V) → ℕ
total_points ps = total_of (λ p. p.number_of_points) ps

module _ {V : Type 0} (ps : List (PieceSurface V)) (hs : ArePieces ps) where
  pub polys_of : List (List ℕ)
  polys_of = shifted_cells (λ p h. h.poly_cells) 0 ps hs

  pub lines_of : List (List ℕ)
  lines_of = shifted_cells (λ p h. h.line_cells) 0 ps hs

  pub verts_of : List (List ℕ)
  verts_of = shifted_cells (λ p h. h.vert_cells) 0 ps hs

  pub append_pieces-new_geometry :
      (zero_value : V)
      → append_pieces (new_geometry zero_value (total_points ps)) ps
        ≡ ok (record {
          points = all_points ps;
          polys = cell_array polys_of;
          lines = cell_array lines_of;
          verts = cell_array verts_of;
          point_offset = total_points ps;
        })
  unfolding new_geometry polys_of lines_of verts_of
  append_pieces-new_geometry zero_value =
      let start : 0 + total_points ps ≡ total_points ps = omega arith in
      rw start at (append_pieces_lem zero_value [] [] [] [] 0 ps hs refl)

  pub ids-lt :
      All (All (λ id. id < total_points ps)) polys_of
      × All (All (λ id. id < total_points ps)) lines_of
      × All (All (λ id. id < total_points ps)) verts_of
  unfolding polys_of lines_of verts_of
  ids-lt =
      let start : 0 + total_points ps ≡ total_points ps = omega arith in
      (
        rw start at (shifted_cells-lt (λ p h. h.poly_cells) (λ p h. h.polys_in) 0 ps hs),
        rw start at (shifted_cells-lt (λ p h. h.line_cells) (λ p h. h.lines_in) 0 ps hs),
        rw start at (shifted_cells-lt (λ p h. h.vert_cells) (λ p h. h.verts_in) 0 ps hs),
      )
