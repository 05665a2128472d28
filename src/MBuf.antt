-- ===== src/MBuf.antt =====
-- DPDK's packet buffer, as framework/src/native/zcsi/mbuf.rs sees it: one segment, whose data are
-- the `data_len` bytes from `data_off` on in a buffer of `buf_len` bytes. `metadata` are the words
-- that lie behind the structure, by slot. The arithmetic on the fields wraps at their widths.
mod Tests
pub mod Space
use net_bricks.Prelude.{ℕ, ◌+◌, ◌-◌, ◌%◌, ◌^◌, ltb, add32, sub32, sub64, ◌==◌, if◌then◌else◌}

pub record MBuf : Type 0 where
  pub buf_addr : ℕ
  pub phys_addr : ℕ
  pub data_off : ℕ
  pub refcnt : ℕ
  pub nb_segs : ℕ
  pub port : ℕ
  pub ol_flags : ℕ
  pub packet_type : ℕ
  pub pkt_len : ℕ
  pub data_len : ℕ
  pub vlan_tci : ℕ
  pub hash : ℕ
  pub vlan_tci_outer : ℕ
  pub buf_len : ℕ
  pub timestamp : ℕ
  pub userdata : ℕ
  pub pool : ℕ
  pub next : ℕ
  pub tx_offload : ℕ
  pub priv_size : ℕ
  pub timesync : ℕ
  pub seqn : ℕ
  pub metadata : ℕ → ℕ

-- `+=` and `-=` on a `u16` field, with an operand cut by `as u16`
abbrev pub add16 : ℕ → ℕ → ℕ
add16 a b = (a + b % 2 ^ 16) % 2 ^ 16

abbrev pub sub16 : ℕ → ℕ → ℕ
sub16 a b = (a + 2 ^ 16 - b % 2 ^ 16) % 2 ^ 16

abbrev pub read_metadata_slot : MBuf → ℕ → ℕ
read_metadata_slot m slot = m.metadata slot

abbrev pub write_metadata_slot : MBuf → ℕ → ℕ → MBuf
write_metadata_slot m slot value = record m {
  metadata = λ s. if s == slot then value else m.metadata s;
}

abbrev pub data_address : MBuf → ℕ → ℕ
data_address m offset = m.buf_addr + (m.data_off + offset)

abbrev pub buf_len : MBuf → ℕ
buf_len m = m.buf_len

abbrev pub data_len : MBuf → ℕ
data_len m = m.data_len

abbrev pub pkt_len : MBuf → ℕ
pkt_len m = m.pkt_len

abbrev pub pkt_headroom : MBuf → ℕ
pkt_headroom m = m.data_off

abbrev pub pkt_tailroom : MBuf → ℕ
pkt_tailroom m = sub64 (sub64 m.buf_len m.data_off) m.data_len

-- An operation returns the new buffer and the number of bytes.
unfoldable pub add_data_beginning : MBuf → ℕ → MBuf × ℕ
add_data_beginning m len = if ltb (pkt_headroom m) len then (m, 0) else (
  record m {
    data_off = sub16 m.data_off len;
    data_len = add16 m.data_len len;
    pkt_len = add32 m.pkt_len (len % 2 ^ 32);
  },
  len,
)

unfoldable pub add_data_end : MBuf → ℕ → MBuf × ℕ
add_data_end m len = if ltb (pkt_tailroom m) len then (m, 0) else (
  record m { data_len = add16 m.data_len len; pkt_len = add32 m.pkt_len (len % 2 ^ 32) },
  len,
)

unfoldable pub remove_data_beginning : MBuf → ℕ → MBuf × ℕ
remove_data_beginning m len = if ltb (data_len m) len then (m, 0) else (
  record m {
    data_off = add16 m.data_off len;
    data_len = sub16 m.data_len len;
    pkt_len = sub32 m.pkt_len (len % 2 ^ 32);
  },
  len,
)

unfoldable pub remove_data_end : MBuf → ℕ → MBuf × ℕ
remove_data_end m len = if ltb (data_len m) len then (m, 0) else (
  record m { data_len = sub16 m.data_len len; pkt_len = sub32 m.pkt_len (len % 2 ^ 32) },
  len,
)

abbrev pub refcnt : MBuf → ℕ
refcnt m = m.refcnt

abbrev pub reference : MBuf → MBuf
reference m = record m { refcnt = add16 m.refcnt 1 }
