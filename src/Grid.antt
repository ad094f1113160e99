-- ===== src/Grid.antt =====
-- The structured-grid reader, frontend/src/lib/structuredGrid.ts: `Extent` holds the parsing of
-- an extent and the counts, `Topology` the surface of a piece, `Connectivity` the appending of its
-- arrays, `Arrays` the readers of values, `Combine` the combined surface, `Piece` the whole reader.
pub mod Extent
pub mod Topology
pub mod Connectivity
pub mod Arrays
pub mod Combine
pub mod Piece
mod Tests
mod PieceTests
