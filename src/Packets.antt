-- ===== src/Packets.antt =====
-- framework/src/interface/packet.rs, without the `packet_offset` feature: a packet is a buffer with
-- the address of one of its headers and that header's offset from the start of the data. A packet
-- holds its buffer by value, so it stands for the only packet of that buffer; the bytes are in a
-- memory that every operation takes. A header is read from its bytes as its type says; a function that returns a
-- packet of another header gives the packet back with the type left to the caller.
pub mod Bytes
pub mod Copying
pub mod Headers
pub mod Placed
pub mod Pushing
pub mod Metadata
pub mod Parsing
pub mod Payloads
pub mod Slots
pub mod Types
mod Tests
use net_bricks.Prelude.{
  ℕ, zero, suc, ◌+◌, ◌-◌, ◌*◌, ◌≤◌, ◌≡◌, List, [], ◌∷◌, Bool, true, false, not, Option, none, some,
  map, length, add64, sub64, ltb, leb, ◌==◌, if◌then◌else◌,
}
use net_bricks.Prelude.Run.{Run, returns, panics, bind, check}
use net_bricks.Errors.{
  ErrorKind, bad_offset, failed_allocation, metadata_too_large, Result, ok, err,
}
use net_bricks.Headers.{EndOffset}
use net_bricks.MBuf.{
  MBuf, read_metadata_slot, write_metadata_slot, data_address, add_data_end, reference,
  remove_data_beginning, remove_data_end,
}
use net_bricks.Packets.Bytes.{Memory, read, write, copy_nonoverlapping}

-- A header type with its trait, and the bytes of its structure.
pub record HeaderType (H P : Type 0) : Type 0 where
  pub end_offset : EndOffset H P
  pub size_of : ℕ
  pub to_bytes : H → List ℕ
  pub from_bytes : List ℕ → H
  pub length-to_bytes : (h : H) → length (to_bytes h) ≡ size_of

pub record Packet : Type 0 where
  pub mbuf : MBuf
  pub header : ℕ
  pub offset : ℕ

abbrev pub create_packet : MBuf → ℕ → ℕ → Packet
create_packet mbuf hdr offset = record { mbuf = mbuf; header = hdr; offset = offset }

abbrev pub packet_from_mbuf_no_increment : MBuf → ℕ → Packet
packet_from_mbuf_no_increment mbuf offset = create_packet mbuf (data_address mbuf offset) offset

abbrev pub packet_from_mbuf : MBuf → ℕ → Packet
packet_from_mbuf mbuf offset = packet_from_mbuf_no_increment (reference mbuf) offset

abbrev pub packet_from_mbuf_no_free : MBuf → ℕ → Packet
packet_from_mbuf_no_free mbuf offset = packet_from_mbuf_no_increment mbuf offset

-- `mbuf_alloc` gives a buffer or the null pointer.
abbrev pub new_packet : Option MBuf → Option Packet
new_packet none = none
new_packet (some mbuf) = some (packet_from_mbuf_no_increment mbuf 0)

-- `mbuf_alloc_bulk` returns a code, 0 for success, and fills the array.
abbrev pub new_packet_array : (ℕ → ℕ × List MBuf) → ℕ → List Packet
new_packet_array mbuf_alloc_bulk count =
    let (alloc_ret, filled) = mbuf_alloc_bulk count in
    map (λ m. packet_from_mbuf_no_increment m 0) (if alloc_ret == 0 then filled else [])

abbrev pub data_base : Packet → ℕ
data_base p = data_address p.mbuf 0

abbrev pub data_len : Packet → ℕ
data_len p = p.mbuf.data_len

abbrev pub reset : Packet → Packet
reset p = create_packet p.mbuf (data_base p) 0

abbrev pub deparse_header : Packet → ℕ → Packet
deparse_header p offset = create_packet p.mbuf (p.header - offset) (sub64 p.offset offset)

abbrev pub remove_from_payload_tail : Packet → ℕ → Packet × Result (Unit {0})
remove_from_payload_tail p size = (record p { mbuf = (remove_data_end p.mbuf size).0 }, ok tt)

abbrev pub add_to_payload_tail : Packet → ℕ → Packet × Result (Unit {0})
add_to_payload_tail p size =
    let (mbuf, added) = add_data_end p.mbuf size in
    (record p { mbuf = mbuf }, (if leb size added then ok tt else err failed_allocation))

abbrev pub increase_payload_size : Packet → ℕ → Packet × ℕ
increase_payload_size p increase_by =
    let (mbuf, added) = add_data_end p.mbuf increase_by in (record p { mbuf = mbuf }, added)

abbrev pub trim_payload_size : Packet → ℕ → Packet × ℕ
trim_payload_size p trim_by =
    let (mbuf, removed) = remove_data_end p.mbuf trim_by in (record p { mbuf = mbuf }, removed)

abbrev pub refcnt : Packet → ℕ
refcnt p = p.mbuf.refcnt

-- The bytes at the start of the data are copied over those that follow, and then cut off.
unfoldable pub remove_from_payload_head :
    Memory → Packet → ℕ → Run (Memory × Packet × Result (Unit {0}))
remove_from_payload_head mem p size =
    let src = data_base p in
    let dst = src + size in
    bind (copy_nonoverlapping mem src dst size)
      λ mem. returns (mem, record p { mbuf = (remove_data_beginning p.mbuf size).0 }, ok tt)

module _ {H P : Type 0} (hdr : HeaderType H P) where
  open hdr use {end_offset, size_of, to_bytes, from_bytes}

  abbrev pub get_header : Memory → Packet → H
  get_header mem p = from_bytes (read mem p.header size_of)

  -- The offset of the payload relative to the header.
  abbrev pub payload_offset : Memory → Packet → ℕ
  payload_offset mem p = end_offset.offset (get_header mem p)

  abbrev pub payload : Memory → Packet → ℕ
  payload mem p = p.header + payload_offset mem p

  abbrev pub payload_size : Memory → Packet → ℕ
  payload_size mem p = sub64 (sub64 (data_len p) p.offset) (payload_offset mem p)

  abbrev pub get_payload : Memory → Packet → List ℕ
  get_payload mem p = read mem (payload mem p) (payload_size mem p)

  abbrev pub replace_header : Memory → Packet → H → Memory
  replace_header mem p header = write mem p.header (to_bytes header)
