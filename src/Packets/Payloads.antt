-- ===== src/Packets/Payloads.antt =====
-- The operations of framework/src/interface/packet.rs on the head of the payload.
use net_bricks.Prelude.{
  ℕ, ◌+◌, ◌-◌, ◌^◌, ◌≤◌, ◌≡◌, refl, sym, ap, ap₂, ◌∙◌, ◌++◌, true, false, ltb, leb, sub32, ◌%◌,
  take, drop, arith,
}
use net_bricks.Prelude.Run.{returns}
use net_bricks.Errors.{ok}
use net_bricks.MBuf.{MBuf, add16, sub16, pkt_tailroom, remove_data_beginning}
use net_bricks.MBuf.Space.{IsValid}
use net_bricks.Packets.Bytes.{
  Memory, read, write, copy_nonoverlapping_apart, length-read, read-add, read-write_before,
  read-write_after, read-write_self, take-read, drop-read,
}
use net_bricks.Packets.{
  HeaderType, Packet, data_base, data_len, payload_offset, payload, payload_size, get_payload,
  remove_from_payload_head,
}
use net_bricks.Packets.Headers.{add_to_payload_head}
use net_bricks.Packets.Placed.{IsPlaced, data_of, longer, add_data_end_fits, payload_size_lem}

-- The `s` bytes from `a` on are copied over the `s` bytes that follow.
abbrev doubled : Memory → ℕ → ℕ → Memory
doubled mem a s = write mem (a + s) (read mem a s)

doubled_second : (mem : Memory) (a s : ℕ) → read (doubled mem a s) (a + s) s ≡ read mem a s
doubled_second mem a s =
    ap (read (doubled mem a s) (a + s)) (sym (length-read mem a s))
    ∙ read-write_self mem (a + s) (read mem a s)

doubled_from_second :
    (mem : Memory) (a s n : ℕ)
    → read (doubled mem a s) (a + s) (s + n) ≡ read mem a s ++ read mem (a + s + s) n
doubled_from_second mem a s n =
    read-add (doubled mem a s) (a + s) s n
    ∙ ap₂ ◌++◌ (doubled_second mem a s) (
        read-write_after mem (a + s + s) n (a + s) (read mem a s)
          (omega (arith, length-read mem a s)))

-- The buffer without the first `n` bytes of its data.
abbrev shorter : MBuf → ℕ → MBuf
shorter m n = record m {
  data_off = m.data_off + n;
  data_len = m.data_len - n;
  pkt_len = m.pkt_len - n;
}

remove_data_beginning_fits :
    (m : MBuf) (n : ℕ)
    → IsValid m
    → n ≤ m.data_len
    → (remove_data_beginning m n ≡ (shorter m n, n)) × IsValid (shorter m n)
unfolding remove_data_beginning
remove_data_beginning_fits m n held_in h =
    let t : ltb m.data_len n ≡ false = ground arith in
    let off : add16 m.data_off n ≡ m.data_off + n = omega (arith, held_in.within, held_in.short) in
    let held : sub16 m.data_len n ≡ m.data_len - n = omega (arith, held_in.within, held_in.short) in
    let all : sub32 m.pkt_len (n % 2 ^ 32) ≡ m.pkt_len - n =
      omega (arith, held_in.within, held_in.short, held_in.single) in
    (
      rw (t, off, held, all) refl,
      record {
        within = omega (arith, held_in.within, h);
        short = held_in.short;
        single = omega (arith, held_in.single);
      },
    )

-- For a packet that lies in its buffer, with at least twice `size` bytes of data:
-- `remove_from_payload_head` does not panic, and the data are then the first `size` bytes and those
-- from twice `size` on: the bytes in between are the ones that are removed.
pub remove_from_payload_head_lem :
    (mem : Memory) (p : Packet) (size : ℕ)
    → IsPlaced p
    → size + size ≤ data_len p
    → (mem' : Memory) × (p' : Packet) × (remove_from_payload_head mem p size
        ≡ returns (mem', p', ok tt))
      × IsValid p'.mbuf
      × (data_of mem' p' ≡ take size (data_of mem p) ++ drop (size + size) (data_of mem p))
unfolding remove_from_payload_head
remove_from_payload_head_lem mem p size at h =
    let b : ℕ = data_base p in
    let (cut, valid) = remove_data_beginning_fits p.mbuf size at.valid (omega arith) in
    let p' : Packet = record p { mbuf = shorter p.mbuf size } in
    let rest : data_len p' ≡ size + (data_len p - (size + size)) = omega arith in
    let start : data_base p' ≡ b + size = omega arith in
    (
      doubled mem b size,
      p',
      rw (copy_nonoverlapping_apart mem b (b + size) size (omega arith), cut) refl,
      valid,
      ap₂ (read (doubled mem b size)) start rest
          ∙ doubled_from_second mem b size (data_len p - (size + size))
          ∙ ap₂ ◌++◌ (sym (take-read mem b size (data_len p) (omega arith))) (
              ap (λ a. read mem a (data_len p - (size + size))) (omega arith)
              ∙ sym (drop-read mem b (size + size) (data_len p) h)),
    )

-- For a packet that lies in its buffer, with a header of at least its structure's length that lies
-- in the data, room for `size` bytes behind the data and a payload of at least `size` bytes:
-- `add_to_payload_head` succeeds. The payload is then `size` bytes longer, and its first `size`
-- bytes stand twice: the copy takes the place of the next `size` bytes, and all bytes behind these
-- stay where they are.
pub add_to_payload_head_lem :
    {H P : Type 0} (hdr : HeaderType H P) (mem : Memory) (p : Packet) (size : ℕ)
    → IsPlaced p
    → p.offset + payload_offset hdr mem p ≤ data_len p
    → hdr.size_of ≤ payload_offset hdr mem p
    → size ≤ pkt_tailroom p.mbuf
    → size ≤ payload_size hdr mem p
    → (mem' : Memory) × (p' : Packet) × (add_to_payload_head hdr mem p size
        ≡ returns (mem', p', ok tt))
      × IsPlaced p'
      × (payload_size hdr mem' p' ≡ payload_size hdr mem p + size)
      × (get_payload hdr mem' p'
          ≡ take size (get_payload hdr mem p)
            ++ (take size (get_payload hdr mem p)
                ++ drop
                    (size + size)
                    (read mem (payload hdr mem p) (payload_size hdr mem p + size))))
unfolding add_to_payload_head
add_to_payload_head_lem hdr mem p size at inside covers room long =
    let a : ℕ = payload hdr mem p in
    let k : ℕ = payload_size hdr mem p in
    let (grown, valid) = add_data_end_fits p.mbuf size at.valid room in
    let p' : Packet = record p { mbuf = longer p.mbuf size } in
    let mem' : Memory = doubled mem a size in
    let same : payload_offset hdr mem' p' ≡ payload_offset hdr mem p =
      ap (λ bytes. hdr.end_offset.offset (hdr.from_bytes bytes))
        (read-write_before mem p.header hdr.size_of (a + size) (read mem a size) (omega arith)) in
    let is_placed : IsPlaced p' = record { valid = valid; placed = at.placed } in
    let size' : payload_size hdr mem' p' ≡ k + size = omega (
      arith,
      payload_size_lem hdr mem p at inside,
      payload_size_lem hdr mem' p' is_placed (omega arith),
      same,
      inside,
    ) in
    let t : leb size size ≡ true = ground arith in
    (
      mem',
      p',
      rw (grown, t, copy_nonoverlapping_apart mem a (a + size) size (omega arith)) refl,
      is_placed,
      size',
      ap₂ (read mem') (ap (λ n. p.header + n) same) (size' ∙ omega arith)
          ∙ read-add mem' a size (size + (k - size))
          ∙ ap₂ ◌++◌
              (read-write_before mem a size (a + size) (read mem a size) (omega arith)
                ∙ sym (take-read mem a size k long))
              (doubled_from_second mem a size (k - size)
                ∙ ap₂ ◌++◌ (sym (take-read mem a size k long)) (
                    ap₂ (read mem) (omega arith) (omega arith)
                    ∙ sym (drop-read mem a (size + size) (k + size) (omega arith)))),
    )
