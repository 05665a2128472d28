-- ===== src/Stores.antt =====
-- framework/src/state: stores that keep a value for each flow. A flow is a key with a decidable
-- equality, a value is anything with a merge and a default, and a `HashMap` is its list of entries.
pub mod Maps
pub mod Dp
pub mod Cp
pub mod Mergeable
