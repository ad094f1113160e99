-- ===== src/Grid/Tests.antt =====
-- Runs of the structured-grid reader at concrete inputs.
use my_paraview_web.Common.{◌+◌, ◌-◌, ◌*◌, ◌≡◌, refl, some, List, [], ◌∷◌, length, arith, All}
use my_paraview_web.Common.Int.{pos, negsuc}
use my_paraview_web.Grid.Extent.{
  JsNumber, integer, Dimensions, IsGrid, has_unsafe, is_reversed, parse_extent,
}
use my_paraview_web.Grid.Topology.{build_piece_topology}
use my_paraview_web.Grid.Topology.Cells.{IsCell, primitives, build_piece_topology-IsCell}
use my_paraview_web.Grid.Topology.Counts.{OnBoundary, build_piece_topology-boundary}

-- A piece of two by two by one cells.
abbrev block : Dimensions
block = record { nx = 3; ny = 3; nz = 2 }

block-IsGrid : IsGrid block
block-IsGrid = record { x_pos = omega arith; y_pos = omega arith; z_pos = omega arith }

abbrev block_words : List JsNumber
block_words =
    integer (negsuc 0)
    ∷ integer (pos 1)
    ∷ integer (pos 0)
    ∷ integer (pos 2)
    ∷ integer (pos 4)
    ∷ integer (pos 5)
    ∷ []

block_parsed : parse_extent block_words ≡ some block
unfolding parse_extent has_unsafe is_reversed
block_parsed = refl

build_piece_topology-IsCell_example : All (IsCell block) (primitives (build_piece_topology block))
build_piece_topology-IsCell_example = build_piece_topology-IsCell block block-IsGrid

build_piece_topology-boundary_example :
    All (OnBoundary block) (build_piece_topology block).polys
    × (length (build_piece_topology block).polys
        ≡ 2 * ((3 - 1) * (2 - 1) + (3 - 1) * (2 - 1) + (3 - 1) * (3 - 1)))
build_piece_topology-boundary_example =
    build_piece_topology-boundary block (omega arith) (omega arith) (omega arith)
