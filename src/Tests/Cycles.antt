-- ===== src/Tests/Cycles.antt =====
-- Resets and renewals.
