-- ===== src/Headers/Udp.antt =====
-- The UDP header of framework/src/headers/udp.rs.
mod Fields
use net_bricks.Prelude.{ℕ, true, sub64, swap16}
use net_bricks.Headers.{EndOffset}
use net_bricks.Headers.Ip.{IpHeader}

pub record UdpHeader : Type 0 where
  pub src_port : ℕ
  pub dst_port : ℕ
  pub len : ℕ
  pub csum : ℕ

abbrev pub new : UdpHeader
new = record { src_port = 0; dst_port = 0; len = 0; csum = 0 }

abbrev pub src_port : UdpHeader → ℕ
src_port h = swap16 h.src_port

abbrev pub dst_port : UdpHeader → ℕ
dst_port h = swap16 h.dst_port

abbrev pub set_src_port : ℕ → UdpHeader → UdpHeader
set_src_port port h = record h { src_port = swap16 port }

abbrev pub set_dst_port : ℕ → UdpHeader → UdpHeader
set_dst_port port h = record h { dst_port = swap16 port }

abbrev pub length : UdpHeader → ℕ
length h = swap16 h.len

abbrev pub set_length : ℕ → UdpHeader → UdpHeader
set_length len h = record h { len = swap16 len }

abbrev pub checksum : UdpHeader → ℕ
checksum h = swap16 h.csum

abbrev pub set_checksum : ℕ → UdpHeader → UdpHeader
set_checksum csum h = record h { csum = swap16 csum }

abbrev pub udp_offset : EndOffset UdpHeader IpHeader
udp_offset = record {
  offset = λ _. 8;
  size = 8;
  payload_size = λ h _. sub64 (length h) 8;
  check_correct = λ _ _. true;
}
