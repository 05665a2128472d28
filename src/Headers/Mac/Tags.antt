-- ===== src/Headers/Mac/Tags.antt =====
-- What framework/src/headers/mac.rs does with the type and the addresses of a frame.
use net_bricks.Prelude.{ℕ, ◌^◌, ◌<◌, ◌≡◌, swap16-swap16, swap16_lem, arith, ◌==◌, if◌then◌else◌}
use net_bricks.Headers.Mac.{
  MacHeader, offset, etype, set_etype, hdr_size, hdr_size_802_1q, hdr_size_802_1ad,
}

-- `offset` compares the type as it lies in memory: after `set_etype` with a 16-bit type, the 18
-- bytes of an 802.1Q header are skipped for 0x0081 and the 22 of 802.1ad for 0x0091, and 14 for
-- every other type, the tags 0x8100 and 0x9100 among them; the getter gives the type that was set.
pub offset-set_etype :
    (h : MacHeader) (t : ℕ)
    → t < 2 ^ 16
    → (etype (set_etype t h) ≡ t)
      × (offset (set_etype t h) ≡ (
          if t == 129 then hdr_size_802_1q else (if t == 145 then hdr_size_802_1ad else hdr_size)))
unfolding offset
offset-set_etype h t r = let e = swap16_lem t in (swap16-swap16 t r, ground (arith, e))
