-- ===== src/Packets/Parsing.antt =====
-- `parse_header` and `deparse_header` of framework/src/interface/packet.rs, and the words of the
-- buffer in which a packet saves its place.
use native.Mathlib.Decide.{dec_lt}
use net_bricks.Prelude.{
  ℕ, ◌+◌, ◌≤◌, ◌<◌, ◌≡◌, ◌≢◌, refl, ap₂, true, false, ltb, ◌==◌, some, add64, ◌⊎◌, inl, inr, arith,
}
use net_bricks.Prelude.Run.{returns, panics}
use net_bricks.Packets.Bytes.{Memory}
use net_bricks.Packets.{
  HeaderType, Packet, create_packet, data_len, payload_offset, payload, payload_size,
  deparse_header,
}
use net_bricks.Packets.Headers.{parse_header}
use net_bricks.Packets.Slots.{
  parse_header_and_record, push_offset, save_header_and_offset, restore_saved_header,
}
use net_bricks.Packets.Placed.{IsPlaced}

module _ {H P H2 : Type 0} (hdr : HeaderType H P) (hdr2 : HeaderType H2 H) (mem : Memory)
    (p : Packet) where
  abbrev next : Packet
  next = create_packet p.mbuf (payload hdr mem p) (p.offset + payload_offset hdr mem p)

  -- For a packet that lies in its buffer, with a header that lies in the data: `parse_header`
  -- panics exactly when the payload is not longer than the new header's size. If it is longer, the
  -- result lies in the buffer too, its header starts where the payload was, and `deparse_header` by
  -- the old header's offset gives the packet from before.
  pub deparse-parse :
      IsPlaced p
      → p.offset + payload_offset hdr mem p ≤ data_len p
      → ((payload_size hdr mem p ≤ hdr2.end_offset.size) × (parse_header hdr hdr2 mem p ≡ panics))
        ⊎ ((hdr2.end_offset.size < payload_size hdr mem p)
            × ((q : Packet) × (parse_header hdr hdr2 mem p ≡ returns q)
                × IsPlaced q
                × (q.header ≡ payload hdr mem p)
                × (deparse_header q (payload_offset hdr mem p) ≡ p)))
  unfolding parse_header
  deparse-parse at inside = elim (dec_lt hdr2.end_offset.size (payload_size hdr mem p)) [
    | no h ↦
        let t : ltb hdr2.end_offset.size (payload_size hdr mem p) ≡ false = ground arith in
        inl (omega arith, rw t refl)
    | yes h ↦
        let t : ltb hdr2.end_offset.size (payload_size hdr mem p) ≡ true = ground arith in
        let sum : add64 p.offset (payload_offset hdr mem p) ≡ p.offset + payload_offset hdr mem p =
          omega (arith, at.valid.within, at.valid.short) in
        inr (
          h,
          (
            next,
            rw (t, sum) refl,
            record { valid = at.valid; placed = omega (arith, at.placed) },
            refl,
            ap₂ (λ (a o : ℕ). create_packet p.mbuf a o) (omega arith)
                (omega (arith, at.valid.within, at.valid.short)),
          ),
        )
  ]

-- No packet gets through `parse_header_and_record`: the stack has no room for an offset.
pub parse_header_and_record_lem :
    {H P H2 : Type 0} (hdr : HeaderType H P) (hdr2 : HeaderType H2 H) (mem : Memory) (p : Packet)
    → parse_header_and_record hdr hdr2 mem p ≡ panics
unfolding parse_header_and_record push_offset
parse_header_and_record_lem hdr hdr2 mem p = ground arith

-- A packet whose header is not at the null address is restored by `restore_saved_header` after
-- `save_header_and_offset`, also if another header of the same buffer has been parsed in between.
pub restore-save :
    (p : Packet) (header offset : ℕ)
    → p.header ≢ 0
    → restore_saved_header (create_packet (save_header_and_offset p).mbuf header offset)
      ≡ some (save_header_and_offset p)
unfolding restore_saved_header
restore-save p header offset h = let t : (p.header == 0) ≡ false = ground arith in rw t refl
