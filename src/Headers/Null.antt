-- ===== src/Headers/Null.antt =====
-- The header of a packet that has not been parsed: framework/src/headers/null_header.rs.
use net_bricks.Prelude.{true}
use net_bricks.Headers.{EndOffset}

pub record NullHeader : Type 0 where

abbrev pub null_offset : EndOffset NullHeader NullHeader
null_offset = record {
  offset = λ _. 0;
  size = 0;
  payload_size = λ _ hint. hint;
  check_correct = λ _ _. true;
}
