-- ===== src/Headers/Ip.antt =====
-- The IPv4 header of framework/src/headers/ip.rs, without the `performance` feature: five words
-- of 32 bits as a little-endian host reads them.
mod Tests
mod Fields
mod Setters
mod Update
use net_bricks.Prelude.{
  ℕ, ◌-◌, ◌*◌, ◌/◌, ◌%◌, ◌^◌, true, bit_and, bit_or, swap16, swap32, not16, not32, ◌<<<◌, ◌>>>◌,
  sub64,
}
use net_bricks.Headers.{EndOffset}
use net_bricks.Headers.Mac.{MacHeader}

pub record IpHeader : Type 0 where
  pub version_to_len : ℕ
  pub id_to_foffset : ℕ
  pub ttl_to_csum : ℕ
  pub src_ip : ℕ
  pub dst_ip : ℕ

abbrev pub new : IpHeader
new = record { version_to_len = 0; id_to_foffset = 0; ttl_to_csum = 0; src_ip = 0; dst_ip = 0 }

abbrev pub src : IpHeader → ℕ
src h = swap32 h.src_ip

abbrev pub set_src : ℕ → IpHeader → IpHeader
set_src src h = record h { src_ip = swap32 src }

abbrev pub dst : IpHeader → ℕ
dst h = swap32 h.dst_ip

abbrev pub set_dst : ℕ → IpHeader → IpHeader
set_dst dst h = record h { dst_ip = swap32 dst }

abbrev pub ttl : IpHeader → ℕ
ttl h = bit_and h.ttl_to_csum 0x000000ff % 2 ^ 8

abbrev pub set_ttl : ℕ → IpHeader → IpHeader
set_ttl ttl h = record h { ttl_to_csum = bit_or (bit_and h.ttl_to_csum (not32 0x000000ff)) ttl }

abbrev pub protocol : IpHeader → ℕ
protocol h = (bit_and h.ttl_to_csum 0xff00 >>> 8) % 2 ^ 8

abbrev pub set_protocol : ℕ → IpHeader → IpHeader
set_protocol protocol h = record h {
  ttl_to_csum = bit_or (bit_and h.ttl_to_csum (not32 0xff00)) (protocol <<< 8);
}

abbrev pub csum : IpHeader → ℕ
csum h = (bit_and h.ttl_to_csum 0xffff0000 >>> 16) % 2 ^ 16

abbrev pub set_csum : ℕ → IpHeader → IpHeader
set_csum csum h = record h {
  ttl_to_csum = bit_or (bit_and h.ttl_to_csum (not32 0xffff0000)) (swap16 csum <<< 16);
}

abbrev pub id : IpHeader → ℕ
id h = swap16 (bit_and h.id_to_foffset 0xffff % 2 ^ 16)

abbrev pub set_id : ℕ → IpHeader → IpHeader
set_id id h = record h {
  id_to_foffset = bit_or (bit_and h.id_to_foffset (not32 0xffff)) (swap16 id);
}

abbrev pub flags : IpHeader → ℕ
flags h = bit_and ((h.id_to_foffset >>> 21) % 2 ^ 16) 0x7 % 2 ^ 8

abbrev pub set_flags : ℕ → IpHeader → IpHeader
set_flags flags h = record h {
  id_to_foffset = bit_or (bit_and h.id_to_foffset (not32 0x00e00000)) (bit_and flags 0x7 <<< 21);
}

abbrev pub fragment_offset : IpHeader → ℕ
fragment_offset h = swap16 (bit_and (bit_and h.id_to_foffset 0xffff % 2 ^ 16) (not16 0xe) >>> 3)

abbrev pub set_fragment_offset : ℕ → IpHeader → IpHeader
set_fragment_offset offset h = record h {
  id_to_foffset = swap32 (bit_or (bit_and (swap32 h.id_to_foffset) (not32 0x1fff)) offset);
}

abbrev pub version : IpHeader → ℕ
version h = (bit_and h.version_to_len 0xf0 % 2 ^ 8) >>> 4

abbrev pub set_version : ℕ → IpHeader → IpHeader
set_version version h = record h {
  version_to_len = bit_or (bit_and h.version_to_len (not32 0xf0)) (bit_and version 0xf <<< 4);
}

abbrev pub ihl : IpHeader → ℕ
ihl h = bit_and h.version_to_len 0x0f % 2 ^ 8

abbrev pub set_ihl : ℕ → IpHeader → IpHeader
set_ihl ihl h = record h {
  version_to_len = bit_or (bit_and h.version_to_len (not32 0x0f)) (bit_and ihl 0x0f);
}

abbrev pub dscp : IpHeader → ℕ
dscp h = (bit_and h.version_to_len 0xfc00 >>> 10) % 2 ^ 8

abbrev pub set_dscp : ℕ → IpHeader → IpHeader
set_dscp dscp h = record h {
  version_to_len = bit_or (bit_and h.version_to_len (not32 0xfc00)) (bit_and dscp 0x3f <<< 10);
}

abbrev pub ecn : IpHeader → ℕ
ecn h = (bit_and h.version_to_len 0x0300 >>> 8) % 2 ^ 8

abbrev pub set_ecn : ℕ → IpHeader → IpHeader
set_ecn ecn h = record h {
  version_to_len = bit_or (bit_and h.version_to_len (not32 0x0300)) (bit_and ecn 0x03 <<< 8);
}

abbrev pub length : IpHeader → ℕ
length h = swap16 ((bit_and h.version_to_len 0xffff0000 >>> 16) % 2 ^ 16)

abbrev pub set_length : ℕ → IpHeader → IpHeader
set_length len h = record h {
  version_to_len = bit_or (bit_and h.version_to_len (not32 0xffff0000)) (swap16 len <<< 16);
}

abbrev pub ip_offset : EndOffset IpHeader MacHeader
ip_offset = record {
  offset = λ h. ihl h * 4;
  size = 20;
  payload_size = λ h _. sub64 (length h) (ihl h * 4);
  check_correct = λ _ _. true;
}
