-- ===== src/Stores/Mergeable/Growth.antt =====
-- The cache of a store of framework/src/state/mergeable.rs.
