-- ===== src/Grid/Topology/Counts.antt =====
-- The six boundary planes in `buildPieceTopology`, frontend/src/lib/structuredGrid.ts.
use my_paraview_web.Common.{
  ℕ, ◌+◌, ◌-◌, ◌*◌, ◌<◌, ◌≡◌, refl, ◌⊎◌, List, ◌++◌, arith, lt→ltb, All, All-append, All-for_from,
  length, length-append, length-for_from,
}
use my_paraview_web.Grid.Extent.{Dimensions}
use my_paraview_web.Grid.Topology.{
  GridIndex, Primitive, x_faces, y_faces, z_faces, grid_loop, boundary_faces, active_axes,
  topology_on, build_piece_topology,
}

polys_solid :
    (d : Dimensions)
    → 1 < d.nx
    → 1 < d.ny
    → 1 < d.nz
    → (build_piece_topology d).polys ≡ boundary_faces d
unfolding build_piece_topology topology_on active_axes
polys_solid d hx hy hz = rw (lt→ltb 1 d.nx hx, lt→ltb 1 d.ny hy, lt→ltb 1 d.nz hz)

length-grid_loop :
    (m n c : ℕ) (body : ℕ → ℕ → List Primitive)
    → ((b a : ℕ) → length (body b a) ≡ c)
    → length (grid_loop m n body) ≡ (m - 1) * ((n - 1) * c)
unfolding grid_loop
length-grid_loop m n c body h =
    length-for_from (m - 1) 0 ((n - 1) * c) _ (λ b. length-for_from (n - 1) 0 c _ (λ a. h b a))

length-boundary_faces :
    (d : Dimensions)
    → length (boundary_faces d)
      ≡ 2 * ((d.ny - 1) * (d.nz - 1) + (d.nx - 1) * (d.nz - 1) + (d.nx - 1) * (d.ny - 1))
unfolding boundary_faces x_faces y_faces z_faces
length-boundary_faces d = omega (
  arith,
  length-append (grid_loop d.nz d.ny (x_faces d))
      (grid_loop d.nz d.nx (y_faces d) ++ grid_loop d.ny d.nx (z_faces d)),
  length-append (grid_loop d.nz d.nx (y_faces d)) (grid_loop d.ny d.nx (z_faces d)),
  length-grid_loop d.nz d.ny 2 (x_faces d) (λ b a. refl),
  length-grid_loop d.nz d.nx 2 (y_faces d) (λ b a. refl),
  length-grid_loop d.ny d.nx 2 (z_faces d) (λ b a. refl),
)

-- All corners of `q` lie on one of the six boundary planes of the grid.
abbrev pub OnBoundary : Dimensions → Primitive → Type 0
OnBoundary d q =
    All (λ (p : GridIndex). p.i ≡ 0) q.corners
    ⊎ All (λ (p : GridIndex). p.i + 1 ≡ d.nx) q.corners
    ⊎ All (λ (p : GridIndex). p.j ≡ 0) q.corners
    ⊎ All (λ (p : GridIndex). p.j + 1 ≡ d.ny) q.corners
    ⊎ All (λ (p : GridIndex). p.k ≡ 0) q.corners
    ⊎ All (λ (p : GridIndex). p.k + 1 ≡ d.nz) q.corners

module _ (d : Dimensions) (hx : 1 < d.nx) (hy : 1 < d.ny) (hz : 1 < d.nz) where
  x_faces-OnBoundary : (k j : ℕ) → All (OnBoundary d) (x_faces d k j)
  unfolding x_faces
  x_faces-OnBoundary k j = (ground arith, (ground arith, tt))

  y_faces-OnBoundary : (k i : ℕ) → All (OnBoundary d) (y_faces d k i)
  unfolding y_faces
  y_faces-OnBoundary k i = (ground arith, (ground arith, tt))

  z_faces-OnBoundary : (j i : ℕ) → All (OnBoundary d) (z_faces d j i)
  unfolding z_faces
  z_faces-OnBoundary j i = (ground arith, (ground arith, tt))

  boundary_faces-OnBoundary : All (OnBoundary d) (boundary_faces d)
  unfolding boundary_faces grid_loop
  boundary_faces-OnBoundary =
      All-append (OnBoundary d) (grid_loop d.nz d.ny (x_faces d)) _
        (All-for_from _ _ 0 _ (λ k _ _. All-for_from _ _ 0 _ (λ j _ _. x_faces-OnBoundary k j)))
        (All-append (OnBoundary d) (grid_loop d.nz d.nx (y_faces d))
          (grid_loop d.ny d.nx (z_faces d))
          (All-for_from _ _ 0 _ (λ k _ _. All-for_from _ _ 0 _ (λ i _ _. y_faces-OnBoundary k i)))
          (All-for_from _ _ 0 _ (λ j _ _. All-for_from _ _ 0 _ (λ i _ _. z_faces-OnBoundary j i))))

  -- Of a piece with cells in all three directions, every quad that is emitted lies on the boundary
  -- of the grid, and there are as many quads as the six sides of the grid have cell faces.
  pub build_piece_topology-boundary :
      All (OnBoundary d) (build_piece_topology d).polys
      × (length (build_piece_topology d).polys
          ≡ 2 * ((d.ny - 1) * (d.nz - 1) + (d.nx - 1) * (d.nz - 1) + (d.nx - 1) * (d.ny - 1)))
  build_piece_topology-boundary =
      rw (polys_solid d hx hy hz) (boundary_faces-OnBoundary, length-boundary_faces d)
