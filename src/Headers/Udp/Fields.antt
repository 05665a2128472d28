-- ===== src/Headers/Udp/Fields.antt =====
-- The setters of framework/src/headers/udp.rs and their getters.
use net_bricks.Prelude.{ℕ, ◌^◌, ◌<◌, ◌≡◌, swap16-swap16}
use net_bricks.Headers.Udp.{UdpHeader}
use net_bricks.Headers.Udp

-- What the getters give.
pub record Fields : Type 0 where
  pub src_port : ℕ
  pub dst_port : ℕ
  pub length : ℕ
  pub checksum : ℕ

abbrev pub read : UdpHeader → Fields
read h = record {
  src_port = Udp.src_port h;
  dst_port = Udp.dst_port h;
  length = Udp.length h;
  checksum = Udp.checksum h;
}

-- For every UDP header and 16-bit `v`, each of the four setters makes its getter give `v` and
-- leaves what the other three getters give.
pub read-setters :
    (h : UdpHeader) (v : ℕ)
    → v < 2 ^ 16
    → (read (Udp.set_src_port v h) ≡ record (read h) { src_port = v })
      × (read (Udp.set_dst_port v h) ≡ record (read h) { dst_port = v })
      × (read (Udp.set_length v h) ≡ record (read h) { length = v })
      × (read (Udp.set_checksum v h) ≡ record (read h) { checksum = v })
read-setters h v r =
    (rw (swap16-swap16 v r), rw (swap16-swap16 v r), rw (swap16-swap16 v r), rw (swap16-swap16 v r))
