-- ===== src/Reordered.antt =====
-- `ReorderedBuffer` of framework/src/state/reordered_buffer/reordered_buffer.rs: a TCP stream that
-- may arrive out of order, over a ring of bytes and a list of received segments. `fuel` bounds each
-- loop of the segment list; in-order traffic runs no loop and needs none.
mod Tests
pub mod InOrder
pub mod Early
pub mod OutOfOrder
pub mod Trace
use net_bricks.Prelude.{
  ℕ, zero, suc, ◌+◌, ◌-◌, ◌/◌, ◌%◌, ◌^◌, List, Option, Bool, true, false, min, length, drop, add32,
  sub32, ltb, leb, ◌==◌, if◌then◌else◌, ◌&&◌,
}
use net_bricks.Prelude.Run.{Run, returns, panics, out_of_fuel, bind, or_panic, check}
use net_bricks.Errors.{Result, ok, err}
use net_bricks.Utils.{round_to_power_of_2}
use net_bricks.RingBuffer
use net_bricks.RingBuffer.{RingBuffer}
use net_bricks.Segments
use net_bricks.Segments.{SegmentList, u16_max}

pub data InsertionResult : Type 0 where
  inserted out_of_memory : (written available : ℕ) → InsertionResult

pub data State : Type 0 where
  closed connected connected_out_of_order : State

pub record ReorderedBuffer : Type 0 where
  pub ring : RingBuffer
  pub segment_list : SegmentList
  pub buffer_size : ℕ
  pub state : State
  pub head_seq : ℕ
  pub tail_seq : ℕ

abbrev pub available : ReorderedBuffer → ℕ
available b = RingBuffer.available b.ring

pub new_with_segments : ℕ → ℕ → Result ReorderedBuffer
new_with_segments buffer_size segment_size =
    let rounded_bytes = round_to_power_of_2 buffer_size in
    elim (RingBuffer.new rounded_bytes) [
      | ok ring_buffer ↦ ok (record {
        ring = ring_buffer;
        segment_list = Segments.new segment_size;
        buffer_size = rounded_bytes;
        state = closed;
        head_seq = 0;
        tail_seq = 0;
      })
      | err e ↦ err e
    ]

pub new : ℕ → Result ReorderedBuffer
unfolding new_with_segments
new buffer_size = new_with_segments buffer_size (buffer_size / 64)

infixl 5 ◌>>=◌ ◌>>◌
abbrev ◌>>=◌ {ℓ κ} : {A : Type ℓ} {B : Type κ} → Run A → (A → Run B) → Run B
m >>= f = bind m f

abbrev ◌>>◌ {ℓ κ} : {A : Type ℓ} {B : Type κ} → Run A → Run B → Run B
m >> k = bind m λ _. k

pub reset : ℕ → ReorderedBuffer → Run ReorderedBuffer
reset fuel b = do
  l ← Segments.clear fuel b.segment_list
  returns (record b { state = closed; segment_list = l; ring = RingBuffer.clear b.ring })

-- A write of `total` bytes of which `written` went in.
abbrev pub outcome : ℕ → ℕ → ReorderedBuffer → InsertionResult
outcome written total b =
    if written == total then inserted written (available b) else out_of_memory written (available b)

pub fast_path_insert : ReorderedBuffer → List ℕ → Run (ReorderedBuffer × InsertionResult)
fast_path_insert b payload = do
  w ← or_panic (RingBuffer.write_at_tail b.ring payload)
  let written = w.1
  let b = record b { ring = w.0; tail_seq = add32 b.tail_seq (written % 2 ^ 32) }
  returns (b, outcome written (length payload) b)

-- `panic!` unless the buffer is closed
pub seq : ReorderedBuffer → ℕ → List ℕ → Run (ReorderedBuffer × InsertionResult)
unfolding fast_path_insert
seq b n payload = elim b.state [
  | closed ↦ fast_path_insert (record b { state = connected; head_seq = n; tail_seq = n }) payload
  | _ ↦ panics
]

-- `while to_insert > 0`: each round takes up to 65,535 bytes.
add_segments : ℕ → ℕ → SegmentList → ℕ → ℕ → Run SegmentList
add_segments fuel zero l to_insert n = if ltb 0 to_insert then out_of_fuel else returns l
add_segments fuel (suc rounds) l to_insert n =
    let insert = min u16_max to_insert in
    let rest =
      bind (Segments.insert_segment fuel l n insert)
        λ r. add_segments fuel rounds r.0 (to_insert - insert) (add32 n insert) in
    if ltb 0 to_insert then rest else returns l

-- `to_insert` rounds are enough.
pub add_head_to_seg_list : ℕ → ReorderedBuffer → Run ReorderedBuffer
unfolding add_segments
add_head_to_seg_list fuel b = do
  l ← add_segments fuel (available b) b.segment_list (available b) b.head_seq
  returns (record b { segment_list = l })

-- The branch of `out_of_order_insert` for data that starts at the tail.
pub insert_at_tail_seq : ℕ → ReorderedBuffer → ℕ → List ℕ → Run (ReorderedBuffer × InsertionResult)
insert_at_tail_seq fuel b n payload = do
  w ← or_panic (RingBuffer.write_at_tail b.ring payload)
  let written = w.1
  let tail_seq = add32 b.tail_seq (written % 2 ^ 32)
  r ← Segments.insert_segment fuel b.segment_list n (written % 2 ^ 16)
  check (Segments.is_head r.0 r.1)
  s ← Segments.get_segment r.0 r.1
  let seg_end = add32 s.seq s.len
  let incr = sub32 seg_end tail_seq
  let written = if ltb (written % 2 ^ 32) incr then incr else written
  let ring = RingBuffer.seek_tail w.0 incr
  one ← Segments.one_segment r.0
  l ← if one then Segments.clear fuel r.0 else returns r.0
  let b = record b {
    ring = ring;
    segment_list = l;
    tail_seq = seg_end;
    state = if one then connected else b.state;
  }
  returns (b, inserted written (available b))

-- The recursive call of the source is at `tail_seq`, so it takes the first branch.
pub out_of_order_insert : ℕ → ReorderedBuffer → ℕ → List ℕ → Run (ReorderedBuffer × InsertionResult)
unfolding insert_at_tail_seq
out_of_order_insert fuel b n payload =
    let overlap = b.tail_seq - n in
    let ahead = n - b.tail_seq in
    let late =
      if ltb overlap (length payload)
      then insert_at_tail_seq fuel b b.tail_seq (drop overlap payload)
      else returns (b, inserted 0 (available b)) in
    let early = bind (or_panic (RingBuffer.write_at_offset_from_tail b.ring ahead payload)) λ w.
      bind (Segments.insert_segment fuel b.segment_list n (w.1 % 2 ^ 16)) λ r.
        let b' = record b { ring = w.0; segment_list = r.0 } in
        returns (b', outcome w.1 (length payload) b') in
    if b.tail_seq == n
    then insert_at_tail_seq fuel b n payload
    else (if leb n b.tail_seq then late else early)

pub slow_path_insert : ℕ → ReorderedBuffer → ℕ → List ℕ → Run (ReorderedBuffer × InsertionResult)
unfolding fast_path_insert add_head_to_seg_list out_of_order_insert
slow_path_insert fuel b n payload =
    let end = add32 n (length payload % 2 ^ 32) in
    let begin = b.tail_seq - n in
    let reorder =
      bind (add_head_to_seg_list fuel (record b { state = connected_out_of_order }))
        λ b'. out_of_order_insert fuel b' n payload in
    if ltb n b.tail_seq && ltb b.tail_seq end
    then fast_path_insert b (drop begin payload)
    else (if ltb end b.tail_seq then returns (b, inserted 0 (available b)) else reorder)

-- `panic!` on a closed buffer
pub add_data : ℕ → ReorderedBuffer → ℕ → List ℕ → Run (ReorderedBuffer × InsertionResult)
unfolding fast_path_insert slow_path_insert out_of_order_insert
add_data fuel b n payload = elim b.state [
  | connected ↦
      if n == b.tail_seq then fast_path_insert b payload else slow_path_insert fuel b n payload
  | connected_out_of_order ↦ out_of_order_insert fuel b n payload
  | closed ↦ panics
]

pub read_data_common : ReorderedBuffer → List ℕ → Run (ReorderedBuffer × List ℕ × ℕ)
read_data_common b out = do
  r ← or_panic (RingBuffer.read_from_head b.ring out)
  returns (record b { ring = r.0; head_seq = add32 b.head_seq (r.2 % 2 ^ 32) }, r.1, r.2)

-- The caller's slice comes back filled, with the number of bytes read.
pub read_data : ℕ → ReorderedBuffer → List ℕ → Run (ReorderedBuffer × List ℕ × ℕ)
unfolding read_data_common
read_data fuel b out = elim b.state [
  | connected ↦ read_data_common b out
  | connected_out_of_order ↦ do
    r ← read_data_common b out
    c ← Segments.consume_head_data fuel r.0.segment_list b.head_seq (r.2 % 2 ^ 16)
    returns (record r.0 { segment_list = c.0 }, r.1, r.2)
  | closed ↦ returns (b, out, 0)
]

pub is_established : ReorderedBuffer → Bool
is_established b = elim b.state [ closed ↦ false | _ ↦ true ]
