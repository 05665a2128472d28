-- ===== src/MBuf/Tests.antt =====
-- Runs of framework/src/native/zcsi/mbuf.rs on a buffer with 100 bytes of data.
use net_bricks.Prelude.{◌≡◌, refl, ltb, if◌then◌else◌, arith}
use net_bricks.MBuf.{MBuf}
use net_bricks.MBuf.Space.{IsValid, layout, add_end, resize, move, room, resize_lem}

abbrev hundred : MBuf
hundred = record {
  buf_addr = 4096;
  phys_addr = 4096;
  data_off = 128;
  refcnt = 1;
  nb_segs = 1;
  port = 0;
  ol_flags = 0;
  packet_type = 0;
  pkt_len = 100;
  data_len = 100;
  vlan_tci = 0;
  hash = 0;
  vlan_tci_outer = 0;
  buf_len = 2176;
  timestamp = 0;
  userdata = 0;
  pool = 0;
  next = 0;
  tx_offload = 0;
  priv_size = 0;
  timesync = 0;
  seqn = 0;
  metadata = λ slot. 0;
}

hundred-IsValid : IsValid hundred
hundred-IsValid = record { within = omega arith; short = omega arith; single = refl }

resize_lem_example :
    IsValid (resize add_end hundred 50).0
    × ((resize add_end hundred 50).1 ≡ (if ltb (room add_end (layout hundred)) 50 then 0 else 50))
    × (layout (resize add_end hundred 50).0 ≡ (
        if ltb (room add_end (layout hundred)) 50
        then layout hundred
        else move add_end (layout hundred) 50))
resize_lem_example = resize_lem add_end hundred 50 hundred-IsValid
