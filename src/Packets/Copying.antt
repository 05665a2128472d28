-- ===== src/Packets/Copying.antt =====
-- `copy_payload` of framework/src/interface/packet.rs: from one packet into another.
use native.Mathlib.Decide.{dec_lt}
use net_bricks.Prelude.{
  ℕ, ◌+◌, ◌-◌, ◌^◌, ◌≤◌, ◌<◌, ◌≡◌, refl, sym, ap, ◌∙◌, List, true, false, ltb, add64, sub64, ◌⊎◌,
  take, max, arith,
}
use net_bricks.Prelude.Run.{returns}
use net_bricks.MBuf.{pkt_tailroom}
use net_bricks.Packets.Bytes.{
  Memory, read, write, copy_nonoverlapping, length-read, read-write_before, read-write_self,
  take-read,
}
use net_bricks.Packets.{
  HeaderType, Packet, data_len, payload_offset, payload, payload_size, get_payload,
}
use net_bricks.Packets.Headers.{copy_payload}
use net_bricks.Packets.Placed.{IsPlaced, longer, add_data_end_fits, payload_size_lem}

module _ {H P : Type 0} (hdr : HeaderType H P) (mem : Memory) (p other : Packet) (at : IsPlaced p)
    (inside : p.offset + payload_offset hdr mem p ≤ data_len p)
    (covers : hdr.size_of ≤ payload_offset hdr mem p)
    (apart : (payload hdr mem p + payload_size hdr mem other ≤ payload hdr mem other)
      ⊎ (payload hdr mem other + payload_size hdr mem other ≤ payload hdr mem p)) where
  copied : Memory
  copied = write mem (payload hdr mem p) (get_payload hdr mem other)

  apart_lem :
      copy_nonoverlapping mem
        (payload hdr mem other)
        (payload hdr mem p)
        (payload_size hdr mem other)
      ≡ returns copied
  unfolding copied
  apart_lem = ground arith

  -- A packet in the place of `p`, with at least the bytes of the other payload.
  copied_lem :
      (p' : Packet)
      → IsPlaced p'
      → p'.header ≡ p.header
      → p'.offset ≡ p.offset
      → data_len p ≤ data_len p'
      → payload_size hdr mem other + (p.offset + payload_offset hdr mem p) ≤ data_len p'
      → (payload_size hdr copied p' ≡ data_len p' - (p.offset + payload_offset hdr mem p))
        × (take (payload_size hdr mem other) (get_payload hdr copied p')
            ≡ get_payload hdr mem other)
  unfolding copied
  copied_lem p' at' header offset len long =
      let n : ℕ = payload_size hdr mem other in
      let bytes : List ℕ = get_payload hdr mem other in
      let same : payload_offset hdr copied p' ≡ payload_offset hdr mem p =
        ap (λ b. hdr.end_offset.offset (hdr.from_bytes b))
          (ap (λ a. read copied a hdr.size_of) header
            ∙ read-write_before mem p.header hdr.size_of (payload hdr mem p) bytes (omega arith)) in
      let size : payload_size hdr copied p' ≡ data_len p' - (p.offset + payload_offset hdr mem p) =
        omega (arith, payload_size_lem hdr copied p' at', same, offset, len, inside) in
      let place : payload hdr copied p' ≡ payload hdr mem p = omega (arith, same, header) in
      (
        size,
        ap (λ a. take n (read copied a (payload_size hdr copied p'))) place
            ∙ take-read copied (payload hdr mem p) n (payload_size hdr copied p')
                (omega (arith, size, long))
            ∙ ap (read copied (payload hdr mem p)) (sym (length-read mem (payload hdr mem other) n))
            ∙ read-write_self mem (payload hdr mem p) bytes,
      )

  -- For two packets of one header type: if the first lies in its buffer, with a header of at least
  -- its structure's length that lies in the data, the other payload does not overlap the bytes
  -- that it is copied to, and there is room behind the first packet's data for what its payload is
  -- shorter, then `copy_payload` returns the length of the other payload. The first payload then
  -- starts with the other payload, and is the longer one of the two lengths.
  pub copy_payload_lem :
      payload_size hdr mem other - payload_size hdr mem p ≤ pkt_tailroom p.mbuf
      → payload_size hdr mem other < 2 ^ 16
      → (mem' : Memory) × (p' : Packet) × (copy_payload hdr mem p other
          ≡ returns (mem', p', payload_size hdr mem other))
        × IsPlaced p'
        × (payload_size hdr mem' p' ≡ max (payload_size hdr mem p) (payload_size hdr mem other))
        × (take (payload_size hdr mem other) (get_payload hdr mem' p') ≡ get_payload hdr mem other)
  unfolding copy_payload
  copy_payload_lem room small =
      let n : ℕ = payload_size hdr mem other in
      let held : ℕ = payload_size hdr mem p in
      let held_lem = payload_size_lem hdr mem p at inside in
      elim (dec_lt held n) [
        | yes h ↦
            let t : ltb held n ≡ true = ground arith in
            let by : sub64 n held ≡ n - held = omega (arith, held_lem) in
            let (grown, valid) = add_data_end_fits p.mbuf (n - held) at.valid room in
            let all : add64 held (n - held) ≡ n = omega arith in
            let p' : Packet = record p { mbuf = longer p.mbuf (n - held) } in
            let is_placed : IsPlaced p' = record { valid = valid; placed = at.placed } in
            let (size, same) =
              copied_lem p' is_placed refl refl (omega arith) (omega (arith, held_lem)) in
            (
              copied,
              p',
              rw (t, by, grown, all, apart_lem) refl,
              is_placed,
              omega (arith, size, held_lem),
              same,
            )
        | no h ↦
            let t : ltb held n ≡ false = ground arith in
            let (size, same) = copied_lem p at refl refl (omega arith) (omega (arith, held_lem)) in
            (copied, p, rw (t, apart_lem) refl, at, omega (arith, size, held_lem), same)
      ]
