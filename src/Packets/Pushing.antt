-- ===== src/Packets/Pushing.antt =====
-- `push_header` of framework/src/interface/packet.rs: where the header and the payload come to lie.
use native.Mathlib.Decide.{ℕ_discrete}
use net_bricks.Prelude.{
  ℕ, ◌+◌, ◌-◌, ◌^◌, ◌≤◌, ◌<◌, ◌≡◌, refl, sym, ap, ap₂, ◌∙◌, List, ◌++◌, true, false, leb, ◌==◌,
  some, add64, sub64, length, if◌then◌else◌, arith,
}
use net_bricks.Prelude.Run.{Run, returns, bind}
use net_bricks.MBuf.{pkt_tailroom}
use net_bricks.Packets.Bytes.{
  Memory, read, write, copy_nonoverlapping, copy_nonoverlapping_apart, length-read, read-add,
  read-write_before, read-write_after, read-write_self,
}
use net_bricks.Packets.{
  HeaderType, Packet, create_packet, data_base, data_len, payload_offset, payload, payload_size,
  get_header, get_payload,
}
use net_bricks.Packets.Headers.{push_header}
use net_bricks.Packets.Placed.{IsPlaced, data_of, longer, add_data_end_fits, payload_size_lem}

-- `k` bytes are moved by `size`, unless there are none.
record Moved (mem : Memory) (moved : Run Memory) (dst size k : ℕ) : Type 0 where
  mem' : Memory
  run : moved ≡ returns mem'
  there : read mem' (dst + size) k ≡ read mem dst k
  before : (a n : ℕ) → a + n ≤ dst → read mem' a n ≡ read mem a n

move_lem :
    (mem : Memory) (dst size len from : ℕ)
    → from ≤ len
    → len - from ≤ size
    → len < 2 ^ 16
    → Moved mem
        (if len == from
          then returns mem
          else copy_nonoverlapping mem dst (dst + size) (sub64 len from))
        dst
        size
        (len - from)
unfolding read
move_lem mem dst size len from h short small = elim (ℕ_discrete len from) [
  | yes e ↦
      let none_left : len - from ≡ 0 = omega arith in
      let t : (len == from) ≡ true = ground arith in
      record { mem' = mem; run = rw t refl; there = rw none_left refl; before = λ a n l. refl }
  | no ne ↦
      let t : (len == from) ≡ false = ground arith in
      let k : ℕ = len - from in
      let e : sub64 len from ≡ k = omega arith in
      let bytes : List ℕ = read mem dst k in
      record {
        mem' = write mem (dst + size) bytes;
        run = rw (t, e) (copy_nonoverlapping_apart mem dst (dst + size) k (omega arith));
        there =
            ap (read (write mem (dst + size) bytes) (dst + size)) (sym (length-read mem dst k))
            ∙ read-write_self mem (dst + size) bytes;
        before = λ a n l. read-write_before mem a n (dst + size) bytes (omega arith);
      }
]

-- What `push_header` makes of a packet.
record Pushed {H P H2 : Type 0} (hdr : HeaderType H P) (hdr2 : HeaderType H2 H) (mem : Memory)
    (p : Packet) (header : H2) : Type 0 where
  pub mem' : Memory
  pub p' : Packet
  pub run : push_header hdr hdr2 mem p header ≡ returns (mem', some p')
  pub is_placed : IsPlaced p'
  pub start : data_base p' ≡ data_base p
  pub behind : p'.offset ≡ p.offset + payload_offset hdr mem p
  pub len : data_len p' ≡ data_len p + hdr2.size_of
  pub front : read mem' (data_base p) p'.offset ≡ read mem (data_base p) p'.offset
  pub written : read mem' p'.header hdr2.size_of ≡ hdr2.to_bytes header
  pub rest : read mem' (p'.header + hdr2.size_of) (payload_size hdr mem p) ≡ get_payload hdr mem p

module _ {H P H2 : Type 0} (hdr : HeaderType H P) (hdr2 : HeaderType H2 H) (mem : Memory)
    (p : Packet) (header : H2) (at : IsPlaced p)
    (inside : p.offset + payload_offset hdr mem p ≤ data_len p)
    (exact : hdr2.end_offset.offset header ≡ hdr2.size_of)
    (room : hdr2.size_of ≤ pkt_tailroom p.mbuf)
    (short : payload_size hdr mem p ≤ hdr2.size_of) where
  push_header-run :
      (moved : Memory)
      → (if data_len p == p.offset + payload_offset hdr mem p
          then returns mem
          else copy_nonoverlapping mem
              (payload hdr mem p)
              (payload hdr mem p + hdr2.size_of)
              (sub64 (data_len p) (p.offset + payload_offset hdr mem p)))
        ≡ returns moved
      → push_header hdr hdr2 mem p header
        ≡ returns (
          write moved (payload hdr mem p) (hdr2.to_bytes header),
          some (
              create_packet
                (longer p.mbuf hdr2.size_of)
                (payload hdr mem p)
                (p.offset + payload_offset hdr mem p)),
        )
  unfolding push_header
  push_header-run moved run =
      let n : ℕ = p.offset + payload_offset hdr mem p in
      let sum : add64 p.offset (payload_offset hdr mem p) ≡ n =
        omega (arith, at.valid.within, at.valid.short) in
      let (grown, valid) = add_data_end_fits p.mbuf hdr2.size_of at.valid room in
      let t : leb hdr2.size_of hdr2.size_of ≡ true = ground arith in
      rw (exact, grown, t, sum)
        (ap
          (λ m. bind m λ after. returns (
            write after (payload hdr mem p) (hdr2.to_bytes header),
            some (create_packet (longer p.mbuf hdr2.size_of) (payload hdr mem p) n),
          ))
          run)

  push_header-Pushed : Pushed hdr hdr2 mem p header
  unfolding push_header
  push_header-Pushed =
      let n : ℕ = p.offset + payload_offset hdr mem p in
      let dst : ℕ = payload hdr mem p in
      let s : ℕ = hdr2.size_of in
      let k : payload_size hdr mem p ≡ data_len p - n = payload_size_lem hdr mem p at inside in
      let sum : add64 p.offset (payload_offset hdr mem p) ≡ n =
        omega (arith, at.valid.within, at.valid.short) in
      let (grown, valid) = add_data_end_fits p.mbuf s at.valid room in
      let m =
        move_lem mem dst s (data_len p) n inside (omega arith)
          (omega (arith, at.valid.within, at.valid.short)) in
      let bytes : List ℕ = hdr2.to_bytes header in
      let size : length bytes ≡ s = hdr2.length-to_bytes header in
      let t : leb s s ≡ true = ground arith in
      record {
        mem' = write m.mem' dst bytes;
        p' = create_packet (longer p.mbuf s) dst n;
        run = push_header-run m.mem' m.run;
        is_placed = record { valid = valid; placed = omega (arith, at.placed) };
        start = refl;
        behind = refl;
        len = refl;
        front =
            read-write_before m.mem' (data_base p) n dst bytes (omega (arith, at.placed))
            ∙ m.before (data_base p) n (omega (arith, at.placed));
        written =
            ap (read (write m.mem' dst bytes) dst) (sym size) ∙ read-write_self m.mem' dst bytes;
        rest =
            read-write_after m.mem' (dst + s) (payload_size hdr mem p) dst bytes (omega arith)
            ∙ ap (read m.mem' (dst + s)) k
            ∙ m.there
            ∙ ap (read mem dst) (sym k);
      }

  -- For a packet that lies in its buffer, with a header that lies in the data: if the new header's
  -- structure is as long as its offset, there is room for it behind the data, and the payload is
  -- not longer than it, `push_header` returns a packet. Its data are those before the payload, the
  -- new header and the payload, and its header is the new one, at the place where the payload was.
  pub push_header_lem :
      (mem' : Memory) × (p' : Packet) × (push_header hdr hdr2 mem p header
        ≡ returns (mem', some p'))
      × IsPlaced p'
      × (p'.offset ≡ p.offset + payload_offset hdr mem p)
      × (data_of mem' p'
          ≡ read mem (data_base p) (p.offset + payload_offset hdr mem p)
            ++ (hdr2.to_bytes header ++ get_payload hdr mem p))
  push_header_lem =
      let r = push_header-Pushed in
      let n : ℕ = p.offset + payload_offset hdr mem p in
      let s : ℕ = hdr2.size_of in
      let k : ℕ = payload_size hdr mem p in
      let parts : data_len r.p' ≡ n + (s + k) =
        omega (arith, r.len, inside, payload_size_lem hdr mem p at inside) in
      let first : data_base p + n ≡ r.p'.header =
        omega (arith, r.is_placed.placed, r.start, r.behind) in
      (
        r.mem',
        r.p',
        r.run,
        r.is_placed,
        r.behind,
        ap₂ (read r.mem') r.start parts
            ∙ read-add r.mem' (data_base p) n (s + k)
            ∙ ap₂ ◌++◌
                (ap (read r.mem' (data_base p)) (sym r.behind)
                  ∙ r.front
                  ∙ ap (read mem (data_base p)) r.behind)
                (ap (λ a. read r.mem' a (s + k)) first
                  ∙ read-add r.mem' r.p'.header s k
                  ∙ ap₂ ◌++◌ r.written r.rest),
      )

  -- For a packet that lies in its buffer, with a header that lies in the data: if the new header's
  -- structure is as long as its offset, there is room for it behind the data, the payload is not
  -- longer than it, and its bytes read back as that header, `push_header` returns a packet. The new
  -- header is the header of that packet, and its payload is the one from before.
  pub get-push_header :
      hdr2.from_bytes (hdr2.to_bytes header) ≡ header
      → (mem' : Memory) × (p' : Packet) × (push_header hdr hdr2 mem p header
          ≡ returns (mem', some p'))
        × (get_header hdr2 mem' p' ≡ header)
        × (get_payload hdr2 mem' p' ≡ get_payload hdr mem p)
  get-push_header back =
      let r = push_header-Pushed in
      let same : get_header hdr2 r.mem' r.p' ≡ header = ap hdr2.from_bytes r.written ∙ back in
      let skip : payload_offset hdr2 r.mem' r.p' ≡ hdr2.size_of =
        ap hdr2.end_offset.offset same ∙ exact in
      let k : payload_size hdr2 r.mem' r.p' ≡ payload_size hdr mem p = omega (
        arith,
        payload_size_lem hdr mem p at inside,
        payload_size_lem hdr2 r.mem' r.p' r.is_placed,
        r.len,
        r.behind,
      ) in
      (r.mem', r.p', r.run, same, ap₂ (read r.mem') (ap (λ n. r.p'.header + n) skip) k ∙ r.rest)
