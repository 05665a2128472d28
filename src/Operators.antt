-- ===== src/Operators.antt =====
-- framework/src/operators: what acts on the packets of a batch.
pub mod Filter
pub mod Merge
pub mod GroupBy
