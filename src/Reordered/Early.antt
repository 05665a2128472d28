-- ===== src/Reordered/Early.antt =====
-- Bytes that come too early for framework/src/state/reordered_buffer/reordered_buffer.rs: what is held
-- becomes a segment, and they are noted behind it.
use mathlib.Core.Path.{subst}
use net_bricks.Prelude.{
  ℕ, zero, suc, ◌+◌, ◌-◌, ◌%◌, ◌^◌, ◌≤◌, ◌<◌, ◌≡◌, refl, ap, ◌∙◌, List, ◌∷◌, true, false, none,
  some, min, max, length, add32, sub32, ltb, leb, ◌==◌, arith,
}
use net_bricks.Prelude.Run.{returns, bind}
use net_bricks.RingBuffer
use net_bricks.RingBuffer.{RingBuffer}
use net_bricks.Segments
use net_bricks.Segments.{Segment, SegmentList, is_head, get_segment, one_segment}
use net_bricks.Segments.Single.{IsSingle, insert_segment-IsSingle, insert_segment-IsSingle_overlap}
use net_bricks.Reordered.{
  ReorderedBuffer, connected_out_of_order, inserted, available, slow_path_insert, add_data,
  add_segments, add_head_to_seg_list, out_of_order_insert,
}
use net_bricks.Reordered.InOrder.{IsConnected, add_data_connected}

add_segments_none :
    (fuel rounds : ℕ) (l : SegmentList) (n : ℕ) → add_segments fuel rounds l 0 n ≡ returns l
unfolding add_segments
add_segments_none fuel zero l n = refl
add_segments_none fuel (suc rounds) l n = refl

-- Up to 65,535 bytes make one segment.
add_segments_one :
    (fuel rounds : ℕ) (l l' : SegmentList) (i len n : ℕ)
    → 0 < rounds
    → 0 < len
    → len ≤ 65535
    → Segments.insert_segment fuel l n len ≡ returns (l', i)
    → add_segments fuel rounds l len n ≡ returns l'
unfolding add_segments
add_segments_one fuel zero l l' i len n h pos small e = absurd (omega arith)
add_segments_one fuel (suc rounds) l l' i len n h pos small e =
    let test : ltb 0 len ≡ true = ground arith in
    let whole : min 65535 len ≡ len = omega arith in
    let left : len - len ≡ 0 = omega arith in
    rw (test, whole, e, left) (add_segments_none fuel rounds l' (add32 n len))

-- A list without segments and with a free node.
pub record HasFree (l : SegmentList) : Type 0 where
  pub node : ℕ
  pub rest : List ℕ
  pub is_empty : l.head ≡ none
  pub free : l.available ≡ node ∷ rest
  pub stored : node < length l.storage

-- The bytes of the stream are noted as one segment.
head_segment :
    (fuel : ℕ) (b : ReorderedBuffer) (f : HasFree b.segment_list)
    → 0 < available b
    → available b ≤ 65535
    → (l : SegmentList) × (add_head_to_seg_list fuel b ≡ returns (record b { segment_list = l }))
      × IsSingle l f.node b.head_seq (available b)
unfolding add_head_to_seg_list
head_segment fuel b f pos small =
    let (l, e, single) =
      insert_segment-IsSingle fuel b.segment_list f.node f.rest b.head_seq (available b) f.is_empty
        f.free f.stored in
    let one =
      add_segments_one fuel (available b) b.segment_list l f.node (available b) b.head_seq pos pos
        small e in
    (l, ap (λ m. bind m λ l. returns (record b { segment_list = l })) one, single)

-- A connected buffer with a stream that ends before the missing bytes `first`, of which `later` come
-- next, where everything fits into one segment and no sequence number wraps.
pub record HasGap (b : ReorderedBuffer) (first later : List ℕ) : Type 0 where
  pub is_connected : IsConnected b
  pub free_node : HasFree b.segment_list
  pub some_held : 0 < available b
  pub some_missing : 0 < length first
  pub one_segment : available b + length first + length later < 2 ^ 16
  pub fits : available b + length first + length later < b.ring.size
  pub no_wrap : b.head_seq + available b + length first + length later < 2 ^ 32

-- where the later bytes start
abbrev pub start : ReorderedBuffer → List ℕ → ℕ
start b first = b.tail_seq + length first

abbrev pub reach : ReorderedBuffer → List ℕ → List ℕ → ℕ
reach b first later = available b + length first + length later

module _ {b : ReorderedBuffer} {first later : List ℕ} (h : HasGap b first later) where
  pub tail : b.tail_seq ≡ b.head_seq + available b
  tail = omega (arith, h.is_connected.span, h.no_wrap)

  slow_path_early :
      (fuel : ℕ)
      → slow_path_insert fuel b (start b first) later
        ≡ bind
            (add_head_to_seg_list fuel (record b { state = connected_out_of_order }))
            λ b'. out_of_order_insert fuel b' (start b first) later
  unfolding slow_path_insert
  slow_path_early fuel =
      let end : add32 (start b first) (length later % 2 ^ 32) ≡ (start b first) + length later =
        omega (arith, tail, h.no_wrap) in
      let test1 : ltb (start b first) b.tail_seq ≡ false = ground arith in
      let test2 : ltb ((start b first) + length later) b.tail_seq ≡ false = ground arith in
      rw (end, test1, test2) refl

  span_lem :
      sub32
          (max (add32 b.head_seq (available b)) (add32 (start b first) (length later % 2 ^ 16)))
          b.head_seq
        % 2 ^ 16
      ≡ (reach b first later)
  span_lem = omega (arith, tail, h.no_wrap, h.one_segment, h.some_missing)

  out_of_order_early :
      (fuel : ℕ) (ring : RingBuffer) (l l' : SegmentList) (i : ℕ)
      → RingBuffer.write_at_offset_from_tail b.ring (length first) later ≡ some (ring, length later)
      → Segments.insert_segment (suc fuel) l (start b first) (length later % 2 ^ 16)
        ≡ returns (l', i)
      → out_of_order_insert
          (suc fuel)
          (record b { segment_list = l; state = connected_out_of_order })
          (start b first)
          later
        ≡ returns (
          record b { ring = ring; segment_list = l'; state = connected_out_of_order },
          inserted (length later) (RingBuffer.available ring),
        )
  unfolding out_of_order_insert
  out_of_order_early fuel ring l l' i written noted =
      let some_missing = h.some_missing in
      let test1 : (b.tail_seq == (start b first)) ≡ false = ground arith in
      let test2 : leb (start b first) b.tail_seq ≡ false = ground arith in
      let ahead : (start b first) - b.tail_seq ≡ length first = omega arith in
      let all : (length later == length later) ≡ true = ground arith in
      rw (test1, test2, ahead, written, noted, all) refl

  pub early :
      (fuel : ℕ) (ring : RingBuffer)
      → RingBuffer.write_at_offset_from_tail b.ring (length first) later ≡ some (ring, length later)
      → (l : SegmentList) × (add_data (suc fuel) b (start b first) later
          ≡ returns (
            record b { ring = ring; segment_list = l; state = connected_out_of_order },
            inserted (length later) (RingBuffer.available ring),
          ))
        × IsSingle l h.free_node.node b.head_seq (reach b first later)
  early fuel ring written =
      let some_missing = h.some_missing in
      let (l, e, single) =
        head_segment (suc fuel) (record b { state = connected_out_of_order }) h.free_node
          h.some_held (omega (arith, h.one_segment)) in
      let (l', e', single') =
        insert_segment-IsSingle_overlap fuel l h.free_node.node b.head_seq (available b)
          (start b first) (length later % 2 ^ 16) single (omega (arith, tail))
          (omega (arith, tail, h.no_wrap, h.one_segment))
          λ same. omega (arith, tail, h.no_wrap, h.some_missing, same) in
      let test : ((start b first) == b.tail_seq) ≡ false = ground arith in
      (
        l',
        add_data_connected (suc fuel) b (start b first) later h.is_connected.is_connected
            ∙ rw test (
                slow_path_early (suc fuel)
                ∙ ap (λ m. bind m λ b'. out_of_order_insert (suc fuel) b' (start b first) later) e
                ∙ out_of_order_early fuel ring l l' h.free_node.node written e'),
        subst (λ n. IsSingle l' h.free_node.node b.head_seq n) span_lem single',
      )
