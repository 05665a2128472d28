-- ===== src/Headers/Mac/Tests.antt =====
-- Runs of framework/src/headers/mac.rs.
