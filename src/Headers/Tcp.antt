-- ===== src/Headers/Tcp.antt =====
-- The TCP header of framework/src/headers/tcp.rs.
mod Tests
mod Fields
mod Flags
use net_bricks.Prelude.{
  ℕ, ◌-◌, ◌*◌, ◌/◌, ◌%◌, ◌^◌, Bool, true, not, bit_and, bit_or, swap16, swap32, not8, ◌<<<◌, ◌>>>◌,
  sub64, ◌==◌,
}
use net_bricks.Headers.{EndOffset}
use net_bricks.Headers.Ip.{IpHeader}

pub record TcpHeader : Type 0 where
  pub src_port : ℕ
  pub dst_port : ℕ
  pub seq : ℕ
  pub ack : ℕ
  pub offset_to_ns : ℕ
  pub flags : ℕ
  pub window : ℕ
  pub csum : ℕ
  pub urgent : ℕ

abbrev pub new : TcpHeader
new = record {
  src_port = 0;
  dst_port = 0;
  seq = 0;
  ack = 0;
  offset_to_ns = 0;
  flags = 0;
  window = 0;
  csum = 0;
  urgent = 0;
}

abbrev pub cwr : ℕ
cwr = 128

abbrev pub ece : ℕ
ece = 64

abbrev pub urg : ℕ
urg = 32

abbrev pub ack : ℕ
ack = 16

abbrev pub psh : ℕ
psh = 8

abbrev pub rst : ℕ
rst = 4

abbrev pub syn : ℕ
syn = 2

abbrev pub fin : ℕ
fin = 1

abbrev pub src_port : TcpHeader → ℕ
src_port h = swap16 h.src_port

abbrev pub dst_port : TcpHeader → ℕ
dst_port h = swap16 h.dst_port

abbrev pub set_src_port : ℕ → TcpHeader → TcpHeader
set_src_port port h = record h { src_port = swap16 port }

abbrev pub set_dst_port : ℕ → TcpHeader → TcpHeader
set_dst_port port h = record h { dst_port = swap16 port }

abbrev pub seq_num : TcpHeader → ℕ
seq_num h = swap32 h.seq

abbrev pub set_seq_num : ℕ → TcpHeader → TcpHeader
set_seq_num seq h = record h { seq = swap32 seq }

abbrev pub ack_num : TcpHeader → ℕ
ack_num h = swap32 h.ack

abbrev pub set_ack_num : ℕ → TcpHeader → TcpHeader
set_ack_num num h = record h { ack = swap32 num }

abbrev pub data_offset : TcpHeader → ℕ
data_offset h = bit_and h.offset_to_ns 0xf0 >>> 4

abbrev pub set_data_offset : ℕ → TcpHeader → TcpHeader
set_data_offset offset h = record h {
  offset_to_ns = bit_or (bit_and h.offset_to_ns 0x0f) ((offset <<< 4) % 2 ^ 8);
}

abbrev pub ns_flag : TcpHeader → Bool
ns_flag h = bit_and h.offset_to_ns 0x01 == 1

abbrev pub set_ns : TcpHeader → TcpHeader
set_ns h = record h { offset_to_ns = bit_or h.offset_to_ns 1 }

abbrev pub unset_ns : TcpHeader → TcpHeader
unset_ns h = record h { offset_to_ns = bit_and h.offset_to_ns (not8 0x1) }

abbrev pub cwr_flag : TcpHeader → Bool
cwr_flag h = not (bit_and h.flags cwr == 0)

abbrev pub set_cwr_flag : TcpHeader → TcpHeader
set_cwr_flag h = record h { flags = bit_or h.flags cwr }

abbrev pub unset_cwr_flag : TcpHeader → TcpHeader
unset_cwr_flag h = record h { flags = bit_and h.flags (not8 cwr) }

abbrev pub ece_flag : TcpHeader → Bool
ece_flag h = not (bit_and h.flags ece == 0)

abbrev pub set_ece_flag : TcpHeader → TcpHeader
set_ece_flag h = record h { flags = bit_or h.flags ece }

abbrev pub unset_ece_flag : TcpHeader → TcpHeader
unset_ece_flag h = record h { flags = bit_and h.flags (not8 ece) }

abbrev pub urg_flag : TcpHeader → Bool
urg_flag h = not (bit_and h.flags urg == 0)

abbrev pub set_urg_flag : TcpHeader → TcpHeader
set_urg_flag h = record h { flags = bit_or h.flags urg }

abbrev pub unset_urg_flag : TcpHeader → TcpHeader
unset_urg_flag h = record h { flags = bit_and h.flags (not8 urg) }

abbrev pub ack_flag : TcpHeader → Bool
ack_flag h = not (bit_and h.flags ack == 0)

abbrev pub set_ack_flag : TcpHeader → TcpHeader
set_ack_flag h = record h { flags = bit_or h.flags ack }

abbrev pub unset_ack_flag : TcpHeader → TcpHeader
unset_ack_flag h = record h { flags = bit_and h.flags (not8 ack) }

abbrev pub psh_flag : TcpHeader → Bool
psh_flag h = not (bit_and h.flags psh == 0)

abbrev pub set_psh_flag : TcpHeader → TcpHeader
set_psh_flag h = record h { flags = bit_or h.flags psh }

abbrev pub unset_psh_flag : TcpHeader → TcpHeader
unset_psh_flag h = record h { flags = bit_and h.flags (not8 psh) }

abbrev pub rst_flag : TcpHeader → Bool
rst_flag h = not (bit_and h.flags rst == 0)

abbrev pub set_rst_flag : TcpHeader → TcpHeader
set_rst_flag h = record h { flags = bit_or h.flags rst }

abbrev pub unset_rst_flag : TcpHeader → TcpHeader
unset_rst_flag h = record h { flags = bit_and h.flags (not8 rst) }

abbrev pub syn_flag : TcpHeader → Bool
syn_flag h = not (bit_and h.flags syn == 0)

abbrev pub set_syn_flag : TcpHeader → TcpHeader
set_syn_flag h = record h { flags = bit_or h.flags syn }

abbrev pub unset_syn_flag : TcpHeader → TcpHeader
unset_syn_flag h = record h { flags = bit_and h.flags (not8 syn) }

abbrev pub fin_flag : TcpHeader → Bool
fin_flag h = not (bit_and h.flags fin == 0)

abbrev pub set_fin_flag : TcpHeader → TcpHeader
set_fin_flag h = record h { flags = bit_or h.flags fin }

abbrev pub unset_fin_flag : TcpHeader → TcpHeader
unset_fin_flag h = record h { flags = bit_and h.flags (not8 fin) }

abbrev pub window_size : TcpHeader → ℕ
window_size h = swap16 h.window

abbrev pub set_window_size : ℕ → TcpHeader → TcpHeader
set_window_size wnd h = record h { window = swap16 wnd }

abbrev pub checksum : TcpHeader → ℕ
checksum h = swap16 h.csum

abbrev pub set_checksum : ℕ → TcpHeader → TcpHeader
set_checksum csum h = record h { csum = swap16 csum }

abbrev pub urgent : TcpHeader → ℕ
urgent h = swap16 h.urgent

abbrev pub set_urgent : ℕ → TcpHeader → TcpHeader
set_urgent urgent h = record h { urgent = swap16 urgent }

-- `data_offset() * 4` is a product of two `u8`.
abbrev pub tcp_offset : EndOffset TcpHeader IpHeader
tcp_offset = record {
  offset = λ h. data_offset h * 4 % 2 ^ 8;
  size = 20;
  payload_size = λ h frame_size. sub64 frame_size (data_offset h * 4 % 2 ^ 8);
  check_correct = λ _ _. true;
}
