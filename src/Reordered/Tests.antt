-- ===== src/Reordered/Tests.antt =====
-- Runs of framework/src/state/reordered_buffer/reordered_buffer.rs on a buffer of eight bytes.
use net_bricks.Prelude.{ℕ, ◌≡◌, refl, List, [], ◌∷◌, ◌++◌, arith}
use net_bricks.Prelude.Run.{returns}
use net_bricks.RingBuffer.{RingBuffer}
use net_bricks.RingBuffer.Window
use net_bricks.Segments
use net_bricks.Reordered.{
  ReorderedBuffer, inserted, closed, connected, available, outcome, add_data,
}
use net_bricks.Reordered.InOrder.{IsConnected, Appended, stream, add_data_in_order}
use net_bricks.Reordered.Early.{HasGap}
use net_bricks.Reordered.OutOfOrder.{add_data_gap}
use net_bricks.Reordered.Trace.{Event, arrives, reads, replay, replay_lem}

abbrev ring : RingBuffer
ring = record { head = 6; tail = 9; size = 8; mask = 7; vec = 3 ∷ 0 ∷ 0 ∷ 0 ∷ 0 ∷ 0 ∷ 1 ∷ 2 ∷ [] }

ring-IsValid : Window.IsValid ring
ring-IsValid = record {
  bits = 3;
  power = refl;
  small = omega arith;
  masked = refl;
  stored = refl;
  head_word = omega arith;
  tail_word = omega arith;
  room = omega arith;
}

-- The sequence numbers 100 to 102 are in the buffer.
abbrev open_stream : ReorderedBuffer
open_stream = record {
  ring = ring;
  segment_list = Segments.new 2;
  buffer_size = 8;
  state = connected;
  head_seq = 100;
  tail_seq = 103;
}

open_stream-IsConnected : IsConnected open_stream
open_stream-IsConnected = record {
  ring_valid = ring-IsValid;
  is_connected = refl;
  head_word = omega arith;
  span = refl;
}

abbrev fresh_ring : RingBuffer
fresh_ring = record { head = 0; tail = 0; size = 2; mask = 1; vec = 0 ∷ 0 ∷ [] }

fresh_ring-IsValid : Window.IsValid fresh_ring
fresh_ring-IsValid = record {
  bits = 1;
  power = refl;
  small = omega arith;
  masked = refl;
  stored = refl;
  head_word = omega arith;
  tail_word = omega arith;
  room = omega arith;
}

abbrev shut : ReorderedBuffer
shut = record {
  ring = fresh_ring;
  segment_list = Segments.new 2;
  buffer_size = 2;
  state = closed;
  head_seq = 0;
  tail_seq = 0;
}

abbrev five : List ℕ
five = 4 ∷ 5 ∷ 6 ∷ 7 ∷ 8 ∷ []

add_data_in_order_example :
    (b' : ReorderedBuffer) × (add_data 0 open_stream 103 five ≡ returns (b', outcome 4 5 b'))
    × Appended open_stream b' five
add_data_in_order_example = add_data_in_order 0 open_stream five open_stream-IsConnected

abbrev history : List Event
history = arrives five ∷ reads (0 ∷ 0 ∷ []) ∷ arrives five ∷ reads five ∷ []

replay_lem_example :
    (b' : ReorderedBuffer) × (accepted : List ℕ) × (delivered : List ℕ) × (replay 0 open_stream
        history
      ≡ returns (b', accepted, delivered))
    × (stream open_stream ++ accepted ≡ delivered ++ stream b')
    × IsConnected b'
replay_lem_example = replay_lem 0 open_stream history open_stream-IsConnected

-- Bytes 105 and 106 come before 103 and 104.
open_stream-HasGap : HasGap open_stream (4 ∷ 5 ∷ []) (6 ∷ 7 ∷ [])
unfolding Segments.new
open_stream-HasGap = record {
  is_connected = open_stream-IsConnected;
  free_node = record {
    node = 1;
    rest = 0 ∷ [];
    is_empty = refl;
    free = refl;
    stored = omega arith;
  };
  some_held = omega arith;
  some_missing = omega arith;
  one_segment = omega arith;
  fits = omega arith;
  no_wrap = omega arith;
}

add_data_gap_example :
    (gap : ReorderedBuffer) × (whole : ReorderedBuffer) × (add_data 1 open_stream 105 (6 ∷ 7 ∷ [])
      ≡ returns (gap, inserted 2 (available gap)))
    × (stream gap ≡ stream open_stream)
    × (add_data 1 gap 103 (4 ∷ 5 ∷ []) ≡ returns (whole, inserted 2 (available whole)))
    × (stream whole ≡ stream open_stream ++ (4 ∷ 5 ∷ 6 ∷ 7 ∷ []))
    × IsConnected whole
add_data_gap_example = add_data_gap open_stream-HasGap 0
