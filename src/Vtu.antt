-- ===== src/Vtu.antt =====
-- frontend/src/lib/vtu.ts: the tables of the linear cells, the faces that a piece counts, the loop
-- over its cells, and the surface of all pieces. Ids, offsets and cell types are natural numbers, and
-- so are the attributes NumberOfPoints and NumberOfComponents.
pub mod Faces
pub mod Cells
pub mod Surface
mod Tests
