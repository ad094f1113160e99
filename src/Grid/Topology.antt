-- ===== src/Grid/Topology.antt =====
-- `buildPieceTopology` of frontend/src/lib/structuredGrid.ts.
-- The code pushes each primitive's point ids on a connectivity array and its source cell on
-- another array at once. Here the loops list the primitives in the same order, with their corners
-- as grid indices, and `connectivity` and `sources` are the two arrays.
pub mod Cells
pub mod Counts
use my_paraview_web.Common.{
  ℕ, suc, ◌+◌, ◌-◌, ◌*◌, Bool, List, [], ◌∷◌, ◌++◌, map, ltb, filter, length, for_from, concat_map,
}
use my_paraview_web.Grid.Extent.{Dimensions, cell_dimensions}

pub record GridIndex : Type 0 where
  pub i : ℕ
  pub j : ℕ
  pub k : ℕ

abbrev pub at : ℕ → ℕ → ℕ → GridIndex
at i j k = record { i = i; j = j; k = k }

pub record Primitive : Type 0 where
  pub corners : List GridIndex
  pub source : GridIndex

abbrev pub primitive : List GridIndex → GridIndex → Primitive
primitive c s = record { corners = c; source = s }

pub data Axis : Type 0 where
  x y z : Axis

abbrev pub dimension : Dimensions → Axis → ℕ
dimension d x = d.nx
dimension d y = d.ny
dimension d z = d.nz

pub active_axes : Dimensions → List Axis
active_axes d = filter (λ axis. ltb 1 (dimension d axis)) (x ∷ y ∷ z ∷ [])

-- `pointId` and `sourceCellId` differ in the dimensions that they are given.
unfoldable pub flat_id : Dimensions → GridIndex → ℕ
flat_id d p = (p.k * d.ny + p.j) * d.nx + p.i

abbrev pub point_id : Dimensions → GridIndex → ℕ
point_id = flat_id

abbrev pub source_cell_id : Dimensions → GridIndex → ℕ
source_cell_id d = flat_id (cell_dimensions d)

abbrev pub with_offset : GridIndex → Axis → ℕ → GridIndex
with_offset p x amount = record p { i = p.i + amount }
with_offset p y amount = record p { j = p.j + amount }
with_offset p z amount = record p { k = p.k + amount }

abbrev origin : GridIndex
origin = at 0 0 0

-- one active axis: a line for each step
pub line_at : Axis → ℕ → Primitive
line_at axis step =
    let base = with_offset origin axis step in primitive (base ∷ with_offset base axis 1 ∷ []) base

-- two active axes: a quad for each cell
pub quad_at : Axis → Axis → ℕ → ℕ → Primitive
quad_at axis_a axis_b b a =
    let base = with_offset (with_offset origin axis_a a) axis_b b in
    let plus_a = with_offset base axis_a 1 in
    let plus_b = with_offset base axis_b 1 in
    let plus_ab = with_offset plus_a axis_b 1 in
    primitive (base ∷ plus_a ∷ plus_ab ∷ plus_b ∷ []) base

pub x_faces : Dimensions → ℕ → ℕ → List Primitive
x_faces d k j =
    let high = d.nx - 2 in
    primitive (at 0 j k ∷ at 0 j (k + 1) ∷ at 0 (j + 1) (k + 1) ∷ at 0 (j + 1) k ∷ []) (at 0 j k)
    ∷ primitive
        (at (high + 1) j k
          ∷ at (high + 1) (j + 1) k
          ∷ at (high + 1) (j + 1) (k + 1)
          ∷ at (high + 1) j (k + 1)
          ∷ [])
        (at high j k)
    ∷ []

pub y_faces : Dimensions → ℕ → ℕ → List Primitive
y_faces d k i =
    let high = d.ny - 2 in
    primitive (at i 0 k ∷ at (i + 1) 0 k ∷ at (i + 1) 0 (k + 1) ∷ at i 0 (k + 1) ∷ []) (at i 0 k)
    ∷ primitive
        (at i (high + 1) k
          ∷ at i (high + 1) (k + 1)
          ∷ at (i + 1) (high + 1) (k + 1)
          ∷ at (i + 1) (high + 1) k
          ∷ [])
        (at i high k)
    ∷ []

pub z_faces : Dimensions → ℕ → ℕ → List Primitive
z_faces d j i =
    let high = d.nz - 2 in
    primitive (at i j 0 ∷ at i (j + 1) 0 ∷ at (i + 1) (j + 1) 0 ∷ at (i + 1) j 0 ∷ []) (at i j 0)
    ∷ primitive
        (at i j (high + 1)
          ∷ at (i + 1) j (high + 1)
          ∷ at (i + 1) (j + 1) (high + 1)
          ∷ at i (j + 1) (high + 1)
          ∷ [])
        (at i j high)
    ∷ []

-- `for (let b = 0; b < m - 1; b += 1) for (let a = 0; a < n - 1; a += 1)`
unfoldable pub grid_loop : ℕ → ℕ → (ℕ → ℕ → List Primitive) → List Primitive
grid_loop m n body = for_from (m - 1) 0 (λ b. for_from (n - 1) 0 (λ a. body b a))

pub boundary_faces : Dimensions → List Primitive
boundary_faces d =
    grid_loop d.nz d.ny (x_faces d)
    ++ (grid_loop d.nz d.nx (y_faces d) ++ grid_loop d.ny d.nx (z_faces d))

pub record Topology : Type 0 where
  pub polys : List Primitive
  pub lines : List Primitive
  pub verts : List Primitive

-- the branches on the number of active axes
pub topology_on : List Axis → Dimensions → Topology
topology_on [] d = record { polys = []; lines = []; verts = primitive (origin ∷ []) origin ∷ [] }
topology_on (axis ∷ []) d = record {
  polys = [];
  lines = for_from (dimension d axis - 1) 0 (λ step. line_at axis step ∷ []);
  verts = [];
}
topology_on (axis_a ∷ axis_b ∷ []) d = record {
  polys =
      grid_loop (dimension d axis_b) (dimension d axis_a) (λ b a. quad_at axis_a axis_b b a ∷ []);
  lines = [];
  verts = [];
}
topology_on (_ ∷ _ ∷ _ ∷ _) d = record { polys = boundary_faces d; lines = []; verts = [] }

unfoldable pub build_piece_topology : Dimensions → Topology
unfolding topology_on active_axes boundary_faces x_faces y_faces z_faces quad_at line_at
build_piece_topology d = topology_on (active_axes d) d

-- The arrays that are filled: each primitive's size and its point ids, and its source cell.
unfoldable pub ids : Dimensions → Primitive → List ℕ
ids d p = map (point_id d) p.corners

unfoldable pub connectivity : Dimensions → List Primitive → List ℕ
unfolding ids
connectivity d = concat_map (λ p. length p.corners ∷ ids d p)

unfoldable pub sources : Dimensions → List Primitive → List ℕ
sources d = map (λ p. source_cell_id d p.source)
