-- ===== src/Reordered/OutOfOrder.antt =====
-- A gap in framework/src/state/reordered_buffer/reordered_buffer.rs: bytes that come too early are
-- kept, and the bytes that were missing then make them readable.
use mathlib.Core.Path.{subst}
use net_bricks.Prelude.{
  ℕ, suc, ◌%◌, ◌^◌, ◌≡◌, refl, sym, ap, ap₂, ◌∙◌, List, ◌++◌, true, Option, none, some, max, length,
  length-append, add32, sub32, ltb, ◌==◌, arith, if◌then◌else◌,
}
use net_bricks.Prelude.Run.{returns}
use net_bricks.RingBuffer
use net_bricks.RingBuffer.{RingBuffer}
use net_bricks.RingBuffer.Window.{contents, length-contents}
use net_bricks.RingBuffer.Gap.{write_at_offset_from_tail_lem, fill_gap}
use net_bricks.Segments
use net_bricks.Segments.{Segment, SegmentList, is_head, get_segment, one_segment}
use net_bricks.Segments.Single.{
  IsSingle, insert_segment-IsSingle_overlap, one_segment_single, is_head_single, get_segment_single,
  clear_single,
}
use net_bricks.Reordered.{
  ReorderedBuffer, connected, connected_out_of_order, inserted, available, add_data,
  out_of_order_insert, insert_at_tail_seq,
}
use net_bricks.Reordered.Early.{HasGap, tail, start, reach, early}
use net_bricks.Reordered.InOrder.{IsConnected, stream}

abbrev ring_or : RingBuffer → Option (RingBuffer × ℕ) → RingBuffer
ring_or r none = r
ring_or r (some (ring, written)) = ring

module _ {b : ReorderedBuffer} {first later : List ℕ} (h : HasGap b first later) where
  -- the sequence number after the bytes of the gap
  filled_seq : add32 b.tail_seq (length first % 2 ^ 32) ≡ (start b first)
  filled_seq = omega (arith, tail h, h.no_wrap)

  still_whole :
      sub32
          (max (add32 b.head_seq (reach b first later)) (add32 b.tail_seq (length first % 2 ^ 16)))
          b.head_seq
        % 2 ^ 16
      ≡ (reach b first later)
  still_whole = omega (arith, tail h, h.no_wrap, h.one_segment)

  -- The rest of `insert_at_tail_seq` when the list comes to one segment that ends behind `later`.
  insert_at_tail_seq_one :
      (fuel i seg_end : ℕ) (behind filled : RingBuffer) (l l1 l2 : SegmentList) (s : Segment)
      → RingBuffer.write_at_tail behind first ≡ some (filled, length first)
      → Segments.insert_segment fuel l b.tail_seq (length first % 2 ^ 16) ≡ returns (l1, i)
      → is_head l1 i ≡ true
      → get_segment l1 i ≡ returns s
      → add32 s.seq s.len ≡ seg_end
      → sub32 seg_end (start b first) ≡ length later
      → one_segment l1 ≡ returns true
      → Segments.clear fuel l1 ≡ returns l2
      → insert_at_tail_seq fuel
          (record b { ring = behind; segment_list = l; state = connected_out_of_order })
          b.tail_seq
          first
        ≡ returns (
          record b {
            ring = RingBuffer.seek_tail filled (length later);
            segment_list = l2;
            tail_seq = seg_end;
            state = connected;
          },
          inserted
              (max (length first) (length later))
              (RingBuffer.available (RingBuffer.seek_tail filled (length later))),
        )
  unfolding insert_at_tail_seq
  insert_at_tail_seq_one fuel i seg_end behind filled l l1 l2 s written e is_first there end incr
        one cleared =
      let small : length first % 2 ^ 32 ≡ length first = omega (arith, h.no_wrap) in
      let most : (if ltb (length first) (length later) then length later else length first)
          ≡ max (length first) (length later) =
        ground arith in
      rw (written, e, is_first, there, end, filled_seq, incr, small, one, cleared, most) refl

  insert_at_tail_seq_lem :
      (fuel : ℕ) (behind filled : RingBuffer) (l : SegmentList)
      → RingBuffer.write_at_tail behind first ≡ some (filled, length first)
      → IsSingle l h.free_node.node b.head_seq (reach b first later)
      → (l' : SegmentList) × (insert_at_tail_seq
            (suc fuel)
            (record b { ring = behind; segment_list = l; state = connected_out_of_order })
            b.tail_seq
            first
          ≡ returns (
            record b {
              ring = RingBuffer.seek_tail filled (length later);
              segment_list = l';
              tail_seq = add32 b.head_seq (reach b first later);
              state = connected;
            },
            inserted
                (max (length first) (length later))
                (RingBuffer.available (RingBuffer.seek_tail filled (length later))),
          ))
        × (l'.head ≡ none)
  insert_at_tail_seq_lem fuel behind filled l written single =
      let i : ℕ = h.free_node.node in
      let some_missing = h.some_missing in
      let (l1, e, wider) =
        insert_segment-IsSingle_overlap fuel l i b.head_seq (reach b first later) b.tail_seq
          (length first % 2 ^ 16) single (omega (arith, tail h))
          (omega (arith, tail h, h.no_wrap, h.one_segment))
          λ same. omega (arith, tail h, h.no_wrap, h.some_missing, same) in
      let whole = subst (λ n. IsSingle l1 i b.head_seq n) still_whole wider in
      let (l2, cleared, empty) = clear_single whole fuel in
      (
        l2,
        insert_at_tail_seq_one (suc fuel) i (add32 b.head_seq (reach b first later)) behind filled l
            l1 l2 whole.segment written e (is_head_single whole) (get_segment_single whole)
            (ap₂ add32 whole.starts whole.spans) (omega (arith, tail h, h.no_wrap))
            (one_segment_single whole) cleared,
        empty,
      )

  -- Early bytes leave the stream as it is.
  kept_stream :
      (behind : RingBuffer)
      → RingBuffer.write_at_offset_from_tail b.ring (length first) later
        ≡ some (behind, length later)
      → contents behind ≡ contents b.ring
  kept_stream behind written =
      let (r, e, same, valid) =
        write_at_offset_from_tail_lem h.is_connected.ring_valid (length first) later in
      ap (λ o. contents (ring_or b.ring o)) (sym written ∙ e) ∙ same

  -- On a connected buffer that holds some bytes, when `later` comes before the bytes `first` that
  -- are missing between them, the list of segments is empty and has a free node, everything fits
  -- into the ring and into one segment, and no sequence number wraps: with fuel for one round,
  -- both calls of `add_data` return. The first keeps the stream as it is, so the reader sees no
  -- gap, and its result counts all of `later`. After the second the stream goes on with `first`
  -- and `later`, in this order, and the buffer is connected; but `written` in its result is the
  -- larger of the two lengths, so it is not the length of its input `first` when `later` is longer.
  pub add_data_gap :
      (fuel : ℕ)
      → (gap : ReorderedBuffer) × (whole : ReorderedBuffer) × (add_data
            (suc fuel)
            b
            (start b first)
            later
          ≡ returns (gap, inserted (length later) (available gap)))
        × (stream gap ≡ stream b)
        × (add_data (suc fuel) gap b.tail_seq first
            ≡ returns (whole, inserted (max (length first) (length later)) (available whole)))
        × (stream whole ≡ stream b ++ (first ++ later))
        × IsConnected whole
  unfolding out_of_order_insert add_data
  add_data_gap fuel =
      let (behind, filled, written, appended, held, valid) =
        fill_gap first later h.is_connected.ring_valid h.fits in
      let (l, e, single) = early h fuel behind written in
      let (l', e', empty) = insert_at_tail_seq_lem fuel behind filled l appended single in
      let test : (b.tail_seq == b.tail_seq) ≡ true = ground arith in
      let after : RingBuffer = RingBuffer.seek_tail filled (length later) in
      let grown : RingBuffer.available after ≡ (reach b first later) = omega (
        arith,
        length-contents after,
        length-contents b.ring,
        ap (λ bytes. length bytes) held,
        length-append (contents b.ring) (first ++ later),
        length-append first later,
      ) in
      (
        record b { ring = behind; segment_list = l; state = connected_out_of_order },
        record b {
          ring = RingBuffer.seek_tail filled (length later);
          segment_list = l';
          tail_seq = add32 b.head_seq (reach b first later);
          state = connected;
        },
        e,
        kept_stream behind written,
        rw test e',
        held,
        record {
          ring_valid = valid;
          is_connected = refl;
          head_word = h.is_connected.head_word;
          span = ap (add32 b.head_seq) (sym grown);
        },
      )
