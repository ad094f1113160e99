-- ===== src/LocalDataset.antt =====
-- Datasets of the browser, frontend/src/lib/localDataset.ts: `Paths` classifies names and resolves
-- references, `Create` is createLocalDataset.
pub mod Paths
pub mod Create
pub mod Build
mod Tests
