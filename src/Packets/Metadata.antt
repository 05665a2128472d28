-- ===== src/Packets/Metadata.antt =====
-- The metadata that framework/src/interface/packet.rs keeps behind a buffer.
use net_bricks.Prelude.{
  ℕ, suc, ◌*◌, ◌≤◌, ◌<◌, ◌≡◌, refl, ap, ap₂, ◌∙◌, List, [], ◌∷◌, true, false, ltb, leb, ◌⊎◌, inl,
  inr, length, arith,
}
use net_bricks.Prelude.Run.{returns}
use net_bricks.Errors.{ok, err, metadata_too_large}
use net_bricks.MBuf.{MBuf, write_metadata_slot}
use net_bricks.Packets.{Packet}
use net_bricks.Packets.Slots.{
  write_words, read_words, write_metadata, read_metadata, freeform_metadata_size,
  freeform_metadata_slot, read_header, read_offset, read_stack_depth,
}
use native.Mathlib.Decide.{dec_lt}

write_words-before :
    (m : MBuf) (slot s : ℕ) (ws : List ℕ)
    → s < slot
    → (write_words m slot ws).metadata s ≡ m.metadata s
unfolding write_words
write_words-before m slot s [] h = refl
write_words-before m slot s (w ∷ ws) h =
    write_words-before (write_metadata_slot m slot w) (suc slot) s ws (omega arith) ∙ ground arith

read-write_words :
    (m : MBuf) (slot : ℕ) (ws : List ℕ) → read_words (write_words m slot ws) slot (length ws) ≡ ws
unfolding write_words read_words
read-write_words m slot [] = refl
read-write_words m slot (w ∷ ws) =
    let m' : MBuf = write_metadata_slot m slot w in
    ap₂ ◌∷◌ (write_words-before m' (suc slot) slot ws (omega arith) ∙ ground arith)
      (read-write_words m' (suc slot) ws)

-- Metadata of whole words: if they are as long as the space for them or longer, `write_metadata`
-- returns the error and leaves the packet as it is. If they are shorter, it succeeds,
-- `read_metadata` reads them back, and the saved header, the saved offset and the depth of the
-- stack are as before.
pub read-write_metadata :
    (p : Packet) (metadata : List ℕ)
    → ((freeform_metadata_size ≤ length metadata * 8)
        × (write_metadata p metadata ≡ (p, err metadata_too_large)))
      ⊎ ((length metadata * 8 < freeform_metadata_size)
          × ((p' : Packet) × (write_metadata p metadata ≡ (p', ok tt))
              × (read_metadata p' (length metadata) ≡ returns metadata)
              × (read_header p' ≡ read_header p)
              × (read_offset p' ≡ read_offset p)
              × (read_stack_depth p' ≡ read_stack_depth p)))
unfolding write_metadata read_metadata
read-write_metadata p metadata = elim (dec_lt (length metadata * 8) freeform_metadata_size) [
  | no h ↦
      let t : leb freeform_metadata_size (length metadata * 8) ≡ true = ground arith in
      inl (omega arith, rw t refl)
  | yes h ↦
      let t : leb freeform_metadata_size (length metadata * 8) ≡ false = ground arith in
      let fits : ltb (length metadata * 8) freeform_metadata_size ≡ true = ground arith in
      let m' : MBuf = write_words p.mbuf freeform_metadata_slot metadata in
      inr (
        h,
        (
          record p { mbuf = m' },
          rw t refl,
          rw fits (ap returns (read-write_words p.mbuf freeform_metadata_slot metadata)),
          write_words-before p.mbuf freeform_metadata_slot 0 metadata (omega arith),
          write_words-before p.mbuf freeform_metadata_slot 1 metadata (omega arith),
          write_words-before p.mbuf freeform_metadata_slot 2 metadata (omega arith),
        ),
      )
]
