-- ===== src/Functions.antt =====
-- Network functions of the directory test, as far as they keep state of their own.
pub mod Lpm
pub mod Maglev
pub mod Nat
