-- ===== src/Slice/Tests.antt =====
-- Runs of the clamps at concrete inputs.
