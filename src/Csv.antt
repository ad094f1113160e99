-- ===== src/Csv.antt =====
-- The CSV reader, frontend/src/lib/csvToPoints.ts: `Parser` models `parseCsv` and `Points` models
-- `csvToPointData`.
pub mod Parser
pub mod Points
mod Tests
