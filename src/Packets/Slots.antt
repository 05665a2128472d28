-- ===== src/Packets/Slots.antt =====
-- framework/src/interface/packet.rs: what a packet keeps in the words behind its buffer, by slot.
use net_bricks.Prelude.{
  ℕ, zero, suc, ◌+◌, ◌-◌, ◌*◌, List, [], ◌∷◌, Option, none, some, length, add64, ltb, leb, ◌==◌,
  if◌then◌else◌,
}
use net_bricks.Prelude.Run.{Run, returns, panics, bind, check}
use net_bricks.Errors.{metadata_too_large, Result, ok, err}
use net_bricks.MBuf.{MBuf, read_metadata_slot, write_metadata_slot}
use net_bricks.Packets.Bytes.{Memory}
use net_bricks.Packets.{
  HeaderType, Packet, create_packet, payload_offset, payload, payload_size, deparse_header,
}

abbrev pub metadata_slots : ℕ
metadata_slots = 16

abbrev pub header_slot : ℕ
header_slot = 0

abbrev pub offset_slot : ℕ
offset_slot = header_slot + 1

abbrev pub stack_depth_slot : ℕ
stack_depth_slot = offset_slot + 1

abbrev pub stack_offset_slot : ℕ
stack_offset_slot = stack_depth_slot + 1

abbrev pub stack_size : ℕ
stack_size = 0

abbrev pub end_of_stack_slot : ℕ
end_of_stack_slot = stack_offset_slot + stack_size

abbrev pub freeform_metadata_slot : ℕ
freeform_metadata_slot = end_of_stack_slot

abbrev pub freeform_metadata_size : ℕ
freeform_metadata_size = (metadata_slots - freeform_metadata_slot) * 8

-- The stack of offsets in the words behind the buffer.
abbrev pub read_stack_depth : Packet → ℕ
read_stack_depth p = read_metadata_slot p.mbuf stack_depth_slot

abbrev pub write_stack_depth : Packet → ℕ → Packet
write_stack_depth p new_depth = record p {
  mbuf = write_metadata_slot p.mbuf stack_depth_slot new_depth;
}

abbrev pub read_stack_offset : Packet → ℕ → ℕ
read_stack_offset p depth = read_metadata_slot p.mbuf (stack_offset_slot + depth)

abbrev pub write_stack_offset : Packet → ℕ → ℕ → Packet
write_stack_offset p depth offset = record p {
  mbuf = write_metadata_slot p.mbuf (stack_offset_slot + depth) offset;
}

abbrev pub reset_stack_offset : Packet → Packet
reset_stack_offset p = write_stack_depth p 0

unfoldable pub push_offset : Packet → ℕ → Packet × Option ℕ
push_offset p offset =
    let depth = read_stack_depth p in
    if ltb depth stack_size
    then (write_stack_offset (write_stack_depth p (depth + 1)) depth offset, some (depth + 1))
    else (p, none)

unfoldable pub pop_offset : Packet → Packet × Option ℕ
pop_offset p =
    let depth = read_stack_depth p in
    if ltb 0 depth
    then (let p = write_stack_depth p (depth - 1) in (p, some (read_stack_offset p (depth - 1))))
    else (p, none)

abbrev pub update_ptrs : Packet → ℕ → ℕ → Packet
update_ptrs p header offset = record p {
  mbuf = write_metadata_slot (write_metadata_slot p.mbuf header_slot header) offset_slot offset;
}

abbrev pub save_header_and_offset : Packet → Packet
save_header_and_offset p = update_ptrs p p.header p.offset

abbrev pub read_header : Packet → ℕ
read_header p = read_metadata_slot p.mbuf header_slot

abbrev pub read_offset : Packet → ℕ
read_offset p = read_metadata_slot p.mbuf offset_slot

-- A null pointer is address 0.
unfoldable pub restore_saved_header : Packet → Option Packet
restore_saved_header p =
    let hdr = read_header p in
    if hdr == 0 then none else some (create_packet p.mbuf hdr (read_offset p))

abbrev pub deparse_header_stack : Packet → Option Packet
deparse_header_stack p =
    let (p, offset) = pop_offset p in
    elim offset [ none ↦ none | some offset ↦ some (deparse_header p offset) ]

-- Metadata of whole words.
unfoldable pub write_words : MBuf → ℕ → List ℕ → MBuf
write_words m slot [] = m
write_words m slot (w ∷ ws) = write_words (write_metadata_slot m slot w) (suc slot) ws

unfoldable pub read_words : MBuf → ℕ → ℕ → List ℕ
read_words m slot zero = []
read_words m slot (suc n) = read_metadata_slot m slot ∷ read_words m (suc slot) n

unfoldable pub read_metadata : Packet → ℕ → Run (List ℕ)
read_metadata p words =
    bind (check (ltb (words * 8) freeform_metadata_size))
      (λ _. returns (read_words p.mbuf freeform_metadata_slot words))

unfoldable pub write_metadata : Packet → List ℕ → Packet × Result (Unit {0})
write_metadata p metadata =
    if leb freeform_metadata_size (length metadata * 8)
    then (p, err metadata_too_large)
    else (record p { mbuf = write_words p.mbuf freeform_metadata_slot metadata }, ok tt)

module _ {H P H2 : Type 0} (hdr : HeaderType H P) (hdr2 : HeaderType H2 H) where
  unfoldable pub parse_header_and_record : Memory → Packet → Run Packet
  parse_header_and_record mem p =
      bind (check (ltb hdr2.end_offset.size (payload_size hdr mem p))) λ _.
        let header = payload hdr mem p in
        let skipped = payload_offset hdr mem p in
        let offset = add64 p.offset skipped in
        let (p, pushed) = push_offset p skipped in
        elim pushed [ none ↦ panics | some depth ↦ returns (create_packet p.mbuf header offset) ]
