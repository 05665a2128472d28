-- ===== src/Headers.antt =====
-- The protocol headers of framework/src/headers. A header is the record of its fields as they lie
-- in memory, in network order; a getter or a setter swaps the bytes, as on a little-endian host.
-- `EndOffset` is the trait of framework/src/headers/mod.rs.
pub mod Null
pub mod Mac
pub mod Ip
pub mod Tcp
pub mod Udp
use net_bricks.Prelude.{ℕ, Bool}

-- The trait's operations on a header of type `H` that comes after one of type `P`.
pub record EndOffset (H P : Type 0) : Type 0 where
  pub offset : H → ℕ
  pub size : ℕ
  pub payload_size : H → ℕ → ℕ
  pub check_correct : H → P → Bool
