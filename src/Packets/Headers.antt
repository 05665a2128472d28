-- ===== src/Packets/Headers.antt =====
-- framework/src/interface/packet.rs: the operations that write and parse headers and payloads.
use net_bricks.Prelude.{ℕ, ◌+◌, Option, none, some, add64, sub64, ltb, leb, ◌==◌, if◌then◌else◌}
use net_bricks.Prelude.Run.{Run, returns, bind, check}
use net_bricks.Errors.{bad_offset, failed_allocation, Result, ok, err}
use net_bricks.MBuf.{add_data_end}
use net_bricks.Packets.Bytes.{Memory, write, copy_nonoverlapping}
use net_bricks.Packets.{
  HeaderType, Packet, create_packet, data_len, increase_payload_size, payload_offset, payload,
  payload_size,
}

module _ {H P : Type 0} (hdr : HeaderType H P) where
  unfoldable pub add_to_payload_head :
      Memory → Packet → ℕ → Run (Memory × Packet × Result (Unit {0}))
  add_to_payload_head mem p size =
      let (mbuf, added) = add_data_end p.mbuf size in
      let p = record p { mbuf = mbuf } in
      if leb size added
      then (let src = payload hdr mem p in
          let dst = src + size in
          bind (copy_nonoverlapping mem src dst size) λ mem. returns (mem, p, ok tt))
      else returns (mem, p, err failed_allocation)

  unfoldable pub copy_payload : Memory → Packet → Packet → Run (Memory × Packet × ℕ)
  copy_payload mem p other =
      let copy_len = payload_size hdr mem other in
      let dst = payload hdr mem p in
      let src = payload hdr mem other in
      let held = payload_size hdr mem p in
      let (p, should_copy) =
        (if ltb held copy_len
          then (let (p, added) = increase_payload_size p (sub64 copy_len held) in
              (p, add64 held added))
          else (p, copy_len)) in
      bind (copy_nonoverlapping mem src dst should_copy) λ mem. returns (mem, p, should_copy)

  -- A header of another type, at an offset of the payload.
  unfoldable pub write_header :
      {H2 P2 : Type 0} → HeaderType H2 P2 → Memory → Packet → H2 → ℕ → Memory × Result (Unit {0})
  write_header hdr2 mem p header offset =
      if ltb (payload_size hdr mem p) offset
      then (mem, err (bad_offset offset))
      else (write mem (payload hdr mem p + offset) (hdr2.to_bytes header), ok tt)

  -- A header of the type `H2` behind the header of the packet.
  module _ {H2 : Type 0} (hdr2 : HeaderType H2 H) where
    unfoldable pub push_header : Memory → Packet → H2 → Run (Memory × Option Packet)
    push_header mem p header =
        let len = data_len p in
        let size = hdr2.end_offset.offset header in
        let (mbuf, added) = add_data_end p.mbuf size in
        let p = record p { mbuf = mbuf } in
        let offset = add64 p.offset (payload_offset hdr mem p) in
        if leb size added
        then (let dst = payload hdr mem p in
            let moved =
              (if len == offset
                then returns mem
                else copy_nonoverlapping mem dst (dst + size) (sub64 len offset)) in
            bind moved λ mem.
              returns
                (write mem dst (hdr2.to_bytes header), some (create_packet p.mbuf dst offset)))
        else returns (mem, none)

    unfoldable pub parse_header : Memory → Packet → Run Packet
    parse_header mem p = bind (check (ltb hdr2.end_offset.size (payload_size hdr mem p))) λ _.
        returns
          (create_packet p.mbuf (payload hdr mem p) (add64 p.offset (payload_offset hdr mem p)))
