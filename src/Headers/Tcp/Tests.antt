-- ===== src/Headers/Tcp/Tests.antt =====
-- Runs of the setters of framework/src/headers/tcp.rs.
use net_bricks.Prelude.{◌≡◌, arith}
use net_bricks.Headers.Tcp.{TcpHeader}
use net_bricks.Headers.Tcp.Fields.{InRange, to_data_offset, perform, read, update, read-perform}

abbrev segment : TcpHeader
segment = record {
  src_port = 20480;
  dst_port = 36895;
  seq = 16777216;
  ack = 33554432;
  offset_to_ns = 81;
  flags = 18;
  window = 65535;
  csum = 4660;
  urgent = 0;
}

data_offset-InRange : InRange (to_data_offset 8)
unfolding InRange
data_offset-InRange = omega arith

read-perform_example :
    read (perform (to_data_offset 8) segment) ≡ update (to_data_offset 8) (read segment)
read-perform_example = read-perform (to_data_offset 8) segment (omega arith) data_offset-InRange
