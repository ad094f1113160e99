-- ===== src/Grid/Topology/Cells.antt =====
-- The primitives, their points and their source cells in `buildPieceTopology`,
-- frontend/src/lib/structuredGrid.ts.
use my_paraview_web.Common.{
  ℕ, All-weaken, length, ◌+◌, ◌-◌, ◌*◌, ◌≤◌, ◌<◌, ◌≡◌, ◌≢◌, ltb→lt, append-nil, refl, Bool, true,
  false, List, [], ◌∷◌, ◌++◌, map, ltb, arith, All, All-append, All-for_from,
}
use my_paraview_web.Grid.Extent.{Dimensions, IsGrid, point_count, cell_count, cell_dimensions}
use my_paraview_web.Grid.Topology.{
  GridIndex, Primitive, dimension, Axis, x, y, z, Topology, active_axes, flat_id, source_cell_id,
  ids, line_at, quad_at, x_faces, y_faces, z_faces, grid_loop, boundary_faces, topology_on,
  build_piece_topology,
}

pub record IsInside (d : Dimensions) (p : GridIndex) : Type 0 where
  pub i_lt : p.i < d.nx
  pub j_lt : p.j < d.ny
  pub k_lt : p.k < d.nz

-- `p` is one of the eight corners of the cell `c`.
pub record IsCorner (c p : GridIndex) : Type 0 where
  pub i_ge : c.i ≤ p.i
  pub i_le : p.i ≤ c.i + 1
  pub j_ge : c.j ≤ p.j
  pub j_le : p.j ≤ c.j + 1
  pub k_ge : c.k ≤ p.k
  pub k_le : p.k ≤ c.k + 1

pub record IsCell (d : Dimensions) (q : Primitive) : Type 0 where
  pub some_corner : 0 < length q.corners
  pub few_corners : length q.corners ≤ 4
  pub corners_in : All (λ p. IsInside d p × IsCorner q.source p) q.corners
  pub source_in : IsInside (cell_dimensions d) q.source

abbrev pub primitives : Topology → List Primitive
primitives t = t.verts ++ (t.lines ++ t.polys)

row-lt : (i j nx ny : ℕ) → i < nx → j < ny → j * nx + i < ny * nx
row-lt i j nx ny p q = grind arith

pub flat_id-lt : (d : Dimensions) (p : GridIndex) → IsInside d p → flat_id d p < point_count d
unfolding flat_id
flat_id-lt d p h =
    let plane : p.k * d.ny + p.j < d.nz * d.ny = row-lt p.j p.k d.ny d.nz h.j_lt h.k_lt in
    omega (arith, row-lt p.i (p.k * d.ny + p.j) d.nx (d.nz * d.ny) h.i_lt plane)

module _ (P : Primitive → Type 0) where
  All-grid_loop :
      (m n : ℕ) (body : ℕ → ℕ → List Primitive)
      → ((b a : ℕ) → b + 1 < m → a + 1 < n → All P (body b a))
      → All P (grid_loop m n body)
  unfolding grid_loop
  All-grid_loop m n body h =
      All-for_from P (m - 1) 0 _
        (λ b _ p. All-for_from P (n - 1) 0 _ (λ a _ q. h b a (omega arith) (omega arith)))

module _ (d : Dimensions) (g : IsGrid d) where
  x_faces-IsCell :
      (k j : ℕ) → 1 < d.nx → k + 1 < d.nz → j + 1 < d.ny → All (IsCell d) (x_faces d k j)
  unfolding x_faces
  x_faces-IsCell k j h p q = ground arith

  y_faces-IsCell :
      (k i : ℕ) → 1 < d.ny → k + 1 < d.nz → i + 1 < d.nx → All (IsCell d) (y_faces d k i)
  unfolding y_faces
  y_faces-IsCell k i h p q = ground arith

  z_faces-IsCell :
      (j i : ℕ) → 1 < d.nz → j + 1 < d.ny → i + 1 < d.nx → All (IsCell d) (z_faces d j i)
  unfolding z_faces
  z_faces-IsCell j i h p q = ground arith

  boundary_faces-IsCell : 1 < d.nx → 1 < d.ny → 1 < d.nz → All (IsCell d) (boundary_faces d)
  unfolding boundary_faces
  boundary_faces-IsCell hx hy hz =
      All-append (IsCell d) (grid_loop d.nz d.ny (x_faces d)) _
        (All-grid_loop (IsCell d) d.nz d.ny (x_faces d) (λ k j p q. x_faces-IsCell k j hx p q))
        (All-append (IsCell d) (grid_loop d.nz d.nx (y_faces d)) (grid_loop d.ny d.nx (z_faces d))
          (All-grid_loop (IsCell d) d.nz d.nx (y_faces d) (λ k i p q. y_faces-IsCell k i hy p q))
          (All-grid_loop (IsCell d) d.ny d.nx (z_faces d) (λ j i p q. z_faces-IsCell j i hz p q)))

  line_at-IsCell :
      (axis : Axis) (step : ℕ) → step + 1 < dimension d axis → IsCell d (line_at axis step)
  unfolding line_at
  line_at-IsCell x step h = ground arith
  line_at-IsCell y step h = ground arith
  line_at-IsCell z step h = ground arith

  quad_at-IsCell :
      (axis_a axis_b : Axis) (b a : ℕ)
      → axis_a ≢ axis_b
      → a + 1 < dimension d axis_a
      → b + 1 < dimension d axis_b
      → IsCell d (quad_at axis_a axis_b b a)
  unfolding quad_at
  quad_at-IsCell x y b a ne p q = ground arith
  quad_at-IsCell x z b a ne p q = ground arith
  quad_at-IsCell y x b a ne p q = ground arith
  quad_at-IsCell y z b a ne p q = ground arith
  quad_at-IsCell z x b a ne p q = ground arith
  quad_at-IsCell z y b a ne p q = ground arith
  quad_at-IsCell x x b a ne p q = absurd (ne refl)
  quad_at-IsCell y y b a ne p q = absurd (ne refl)
  quad_at-IsCell z z b a ne p q = absurd (ne refl)

  lines-IsCell : (axis : Axis) → All (IsCell d) (primitives (topology_on (axis ∷ []) d))
  unfolding topology_on
  lines-IsCell axis =
      rw append-nil
        (All-for_from (IsCell d) _ 0 _ (λ step _ p. (line_at-IsCell axis step (omega arith), tt)))

  quads-IsCell :
      (axis_a axis_b : Axis)
      → axis_a ≢ axis_b
      → All (IsCell d) (primitives (topology_on (axis_a ∷ axis_b ∷ []) d))
  unfolding topology_on
  quads-IsCell axis_a axis_b ne =
      All-grid_loop (IsCell d) _ _ _ (λ b a p q. (quad_at-IsCell axis_a axis_b b a ne q p, tt))

  vertex-IsCell : All (IsCell d) (primitives (topology_on [] d))
  unfolding topology_on
  vertex-IsCell = ground arith

  -- By cases on which of the three axes are active.
  axes-IsCell :
      (a b c : Bool)
      → ltb 1 d.nx ≡ a
      → ltb 1 d.ny ≡ b
      → ltb 1 d.nz ≡ c
      → All (IsCell d) (primitives (build_piece_topology d))
  unfolding topology_on active_axes build_piece_topology
  axes-IsCell false false false p q r = rw (p, q, r) vertex-IsCell
  axes-IsCell true false false p q r = rw (p, q, r) (lines-IsCell x)
  axes-IsCell false true false p q r = rw (p, q, r) (lines-IsCell y)
  axes-IsCell false false true p q r = rw (p, q, r) (lines-IsCell z)
  axes-IsCell true true false p q r = rw (p, q, r) (quads-IsCell x y (λ e. cc))
  axes-IsCell true false true p q r = rw (p, q, r) (quads-IsCell x z (λ e. cc))
  axes-IsCell false true true p q r = rw (p, q, r) (quads-IsCell y z (λ e. cc))
  axes-IsCell true true true p q r =
      rw (p, q, r) (boundary_faces-IsCell (ltb→lt _ _ p) (ltb→lt _ _ q) (ltb→lt _ _ r))

  -- For every valid grid, each line, quad or vertex joins points of the grid that are corners of
  -- its source cell, and its source cell is a cell of the grid.
  pub build_piece_topology-IsCell : All (IsCell d) (primitives (build_piece_topology d))
  build_piece_topology-IsCell = axes-IsCell _ _ _ refl refl refl

abbrev pub IdsInRange : Dimensions → Primitive → Type 0
IdsInRange d q =
    All (λ id. id < point_count d) (ids d q) × (source_cell_id d q.source < cell_count d)

All-ids :
    (d : Dimensions) (c : GridIndex) (ps : List GridIndex)
    → All (λ p. IsInside d p × IsCorner c p) ps
    → All (λ id. id < point_count d) (map (flat_id d) ps)
All-ids d c [] h = tt
All-ids d c (p ∷ ps) ((h, _), hs) = (flat_id-lt d p h, All-ids d c ps hs)

pub IsCell-ids : (d : Dimensions) (q : Primitive) → IsCell d q → IdsInRange d q
unfolding ids
IsCell-ids d q h =
    (All-ids d q.source q.corners h.corners_in, flat_id-lt (cell_dimensions d) q.source h.source_in)

-- For every valid grid, each point id that the topology refers to is below the number of points,
-- and each source cell id is below the number of cells.
pub build_piece_topology-ids :
    (d : Dimensions) → IsGrid d → All (IdsInRange d) (primitives (build_piece_topology d))
build_piece_topology-ids d g =
    All-weaken (IsCell d) _ (IsCell-ids d) (build_piece_topology-IsCell d g)

digit-lt : (n a b i j : ℕ) → i < n → a < b → a * n + i < b * n + j
digit-lt n a b i j p q = grind arith

digit-injective : (n a b i j : ℕ) → i < n → j < n → a * n + i ≡ b * n + j → (a ≡ b) × (i ≡ j)
digit-injective n a b i j p q e = ground (arith, digit-lt n a b i j, digit-lt n b a j i)

-- Two points of a grid with the same id are the same point.
pub flat_id-injective :
    (d : Dimensions) (p q : GridIndex)
    → IsInside d p
    → IsInside d q
    → flat_id d p ≡ flat_id d q
    → p ≡ q
unfolding flat_id
flat_id-injective d p q hp hq e =
    let (rows, same_i) = digit-injective d.nx _ _ p.i q.i hp.i_lt hq.i_lt e in
    let (same_k, same_j) = digit-injective d.ny p.k q.k p.j q.j hp.j_lt hq.j_lt rows in
    λ t. record { i = same_i t; j = same_j t; k = same_k t }
