-- ===== src/Display.antt =====
-- The display state of the selected dataset and its undo history,
-- frontend/src/hooks/useDisplayState.ts, with the types of frontend/src/types.ts that it uses.
pub mod Snapshot
pub mod History
mod Tests
