-- ===== src/Packets/Placed.antt =====
-- Where the header of a packet (framework/src/interface/packet.rs) lies in its buffer, and how the
-- data grow.
use net_bricks.Prelude.{ℕ, ◌+◌, ◌-◌, ◌≤◌, ◌≡◌, ap₂, List, false, ltb, arith}
use net_bricks.MBuf.{MBuf, pkt_tailroom, add_data_end}
use net_bricks.MBuf.Space.{IsValid}
use net_bricks.Packets.Bytes.{Memory, read}
use net_bricks.Packets.{HeaderType, Packet, data_base, data_len, payload_offset, payload_size}

-- The data lie within the buffer, and the header is `offset` bytes behind their start.
pub record IsPlaced (p : Packet) : Type 0 where
  pub valid : IsValid p.mbuf
  pub placed : p.header ≡ data_base p + p.offset

-- The bytes of the data.
abbrev pub data_of : Memory → Packet → List ℕ
data_of mem p = read mem (data_base p) (data_len p)

-- The buffer with `n` more bytes at the end of its data.
abbrev pub longer : MBuf → ℕ → MBuf
longer m n = record m { data_len = m.data_len + n; pkt_len = m.pkt_len + n }

pub add_data_end_fits :
    (m : MBuf) (n : ℕ)
    → IsValid m
    → n ≤ pkt_tailroom m
    → (add_data_end m n ≡ (longer m n, n)) × IsValid (longer m n)
unfolding add_data_end
add_data_end_fits m n ok h =
    let t : ltb (pkt_tailroom m) n ≡ false = ground arith in
    (
      rw t (
          ap₂ (λ (d l : ℕ). (record m { data_len = d; pkt_len = l }, n))
            (omega (arith, ok.within, ok.short)) (omega (arith, ok.within, ok.short, ok.single))),
      record {
        within = omega (arith, ok.within, ok.short, ok.single);
        short = ok.short;
        single = omega (arith, ok.within, ok.short, ok.single);
      },
    )

pub payload_size_lem :
    {H P : Type 0} (hdr : HeaderType H P) (mem : Memory) (p : Packet)
    → IsPlaced p
    → p.offset + payload_offset hdr mem p ≤ data_len p
    → payload_size hdr mem p ≡ data_len p - (p.offset + payload_offset hdr mem p)
payload_size_lem hdr mem p at h = omega (arith, at.valid.within, at.valid.short)
