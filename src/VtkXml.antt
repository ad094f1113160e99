-- ===== src/VtkXml.antt =====
-- The decoding of the arrays of a VTK XML file, frontend/src/lib/vtkXml.ts. Bytes are natural
-- numbers; the inflating of zlib data, base64 and the numbers of the browser are parameters.
pub mod Bytes
pub mod Block
pub mod Typed
pub mod Document
pub mod DataArray
mod Tests
