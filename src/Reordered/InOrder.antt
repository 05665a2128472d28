-- ===== src/Reordered/InOrder.antt =====
-- In-order traffic through framework/src/state/reordered_buffer/reordered_buffer.rs: the stream that
-- a reader sees is the stream that arrived.
use net_bricks.Prelude.{
  ℕ, ◌+◌, ◌-◌, ◌%◌, ◌^◌, ◌<◌, ◌≡◌, refl, ap, ◌∙◌, List, ◌++◌, true, false, min, length, take, drop,
  length-take, length-drop, ◌&&◌, length-append, take-min_length, nil_of_length-zero, add32, ltb,
  ◌==◌, arith, if◌then◌else◌,
}
use net_bricks.Prelude.Run.{returns}
use net_bricks.RingBuffer
use net_bricks.RingBuffer.{RingBuffer}
use net_bricks.RingBuffer.Window.{contents, length-contents}
use net_bricks.RingBuffer.Window
use net_bricks.RingBuffer.Append.{write_at_tail_lem}
use net_bricks.RingBuffer.Read.{read_from_head_with_increment_lem}
use net_bricks.Reordered.{
  ReorderedBuffer, closed, connected, inserted, available, outcome, fast_path_insert, seq,
  slow_path_insert, add_data, read_data_common, read_data,
}

-- The bytes that a reader can have.
abbrev pub stream : ReorderedBuffer → List ℕ
stream b = contents b.ring

-- Room for more bytes: the ring keeps one byte free.
abbrev pub room : ReorderedBuffer → ℕ
room b = b.ring.size - 1 - available b

-- A buffer that has seen no gap: its sequence numbers span its bytes.
pub record IsConnected (b : ReorderedBuffer) : Type 0 where
  pub ring_valid : Window.IsValid b.ring
  pub is_connected : b.state ≡ connected
  pub head_word : b.head_seq < 2 ^ 32
  pub span : b.tail_seq ≡ add32 b.head_seq (available b)

-- What a buffer has become when the bytes of `payload` that fit have been appended.
pub record Appended (b b' : ReorderedBuffer) (payload : List ℕ) : Type 0 where
  pub stream_grows : stream b' ≡ stream b ++ take (room b) payload
  pub head_kept : b'.head_seq ≡ b.head_seq
  pub size_kept : b'.ring.size ≡ b.ring.size
  pub connected_still : IsConnected b'

fast_path_insert_lem :
    (b : ReorderedBuffer) (payload : List ℕ)
    → IsConnected b
    → let w = min (length payload) (room b) in
      (b' : ReorderedBuffer) × (fast_path_insert b payload
        ≡ returns (b', outcome w (length payload) b'))
      × Appended b b' payload
unfolding fast_path_insert
fast_path_insert_lem b payload c =
    let (ring, e, same_size, grown, valid) = write_at_tail_lem c.ring_valid payload in
    let w : ℕ = min (length payload) (room b) in
    let b' : ReorderedBuffer = record b { ring = ring; tail_seq = add32 b.tail_seq (w % 2 ^ 32) } in
    let more : available b' ≡ available b + w = omega (
      arith,
      length-contents ring,
      length-contents b.ring,
      ap length grown,
      length-append {0} (contents b.ring) (take w payload),
      length-take {0} w payload,
    ) in
    (
      b',
      rw e,
      record {
        stream_grows = grown ∙ ap (λ l. contents b.ring ++ l) (take-min_length payload (room b));
        head_kept = refl;
        size_kept = same_size;
        connected_still = record {
          ring_valid = valid;
          is_connected = c.is_connected;
          head_word = c.head_word;
          span = omega (arith, more, c.span);
        };
      },
    )

-- the branches of the two methods on a connected buffer
pub add_data_connected :
    (fuel : ℕ) (b : ReorderedBuffer) (n : ℕ) (payload : List ℕ)
    → b.state ≡ connected
    → add_data fuel b n payload
      ≡ (if n == b.tail_seq then fast_path_insert b payload else slow_path_insert fuel b n payload)
unfolding add_data
add_data_connected fuel b n payload h = ground arith

read_data_connected :
    (fuel : ℕ) (b : ReorderedBuffer) (out : List ℕ)
    → b.state ≡ connected
    → read_data fuel b out ≡ read_data_common b out
unfolding read_data
read_data_connected fuel b out h = ground arith

seq_closed :
    (b : ReorderedBuffer) (n : ℕ) (payload : List ℕ)
    → b.state ≡ closed
    → seq b n payload
      ≡ fast_path_insert (record b { state = connected; head_seq = n; tail_seq = n }) payload
unfolding seq
seq_closed b n payload h = ground arith

-- On a connected buffer, `add_data` of a segment that starts where the stream ends returns,
-- appends the bytes that there is room for, keeps the buffer connected, and its result says how
-- many bytes went in.
pub add_data_in_order :
    (fuel : ℕ) (b : ReorderedBuffer) (payload : List ℕ)
    → IsConnected b
    → let w = min (length payload) (room b) in
      (b' : ReorderedBuffer) × (add_data fuel b b.tail_seq payload
        ≡ returns (b', outcome w (length payload) b'))
      × Appended b b' payload
add_data_in_order fuel b payload c =
    let (b', e, a) = fast_path_insert_lem b payload c in
    let test : (b.tail_seq == b.tail_seq) ≡ true = ground arith in
    (b', add_data_connected fuel b b.tail_seq payload c.is_connected ∙ rw test e, a)

-- On a connected buffer, `add_data` of a segment that starts before the end of the stream,
-- reaches past it and does not wrap cuts off what is known already, appends the rest as far as
-- there is room, and its result says how many bytes went in.
pub add_data_overlap :
    (fuel : ℕ) (b : ReorderedBuffer) (n : ℕ) (payload : List ℕ)
    → IsConnected b
    → n < b.tail_seq
    → b.tail_seq < n + length payload
    → n + length payload < 2 ^ 32
    → let fresh = drop (b.tail_seq - n) payload in
      let w = min (length fresh) (room b) in
      (b' : ReorderedBuffer) × (add_data fuel b n payload
        ≡ returns (b', outcome w (length fresh) b'))
      × Appended b b' fresh
unfolding slow_path_insert
add_data_overlap fuel b n payload c before after small =
    let (b', e, a) = fast_path_insert_lem b (drop (b.tail_seq - n) payload) c in
    let test : (n == b.tail_seq) ≡ false = ground arith in
    let test1 : ltb n b.tail_seq ≡ true = ground arith in
    let end : add32 n (length payload % 2 ^ 32) ≡ n + length payload = omega arith in
    let test2 : ltb b.tail_seq (add32 n (length payload % 2 ^ 32)) ≡ true = rw end (ground arith) in
    (
      b',
      add_data_connected fuel b n payload c.is_connected
          ∙ rw (test, slow_path_insert, test1, test2) e,
      a,
    )

-- On a connected buffer, `add_data` of a segment that ends before the end of the stream changes
-- nothing and reports no bytes written.
pub add_data_stale :
    (fuel : ℕ) (b : ReorderedBuffer) (n : ℕ) (payload : List ℕ)
    → IsConnected b
    → n + length payload < b.tail_seq
    → add_data fuel b n payload ≡ returns (b, inserted 0 (available b))
unfolding slow_path_insert
add_data_stale fuel b n payload c before =
    let test : (n == b.tail_seq) ≡ false = ground arith in
    let small : b.tail_seq < 2 ^ 32 = omega (arith, c.span) in
    let end : add32 n (length payload % 2 ^ 32) ≡ n + length payload = omega arith in
    let test1 : ltb b.tail_seq (add32 n (length payload % 2 ^ 32)) ≡ false =
      rw end (ground arith) in
    let test2 : ltb (add32 n (length payload % 2 ^ 32)) b.tail_seq ≡ true = rw end (ground arith) in
    let test3 : (ltb n b.tail_seq && false) ≡ false = ground arith in
    add_data_connected fuel b n payload c.is_connected
    ∙ rw (test, slow_path_insert, test1, test2, test3)

-- On a closed, empty buffer with a valid ring, `seq` at any 32-bit sequence number takes what
-- there is room for as the stream's first bytes, reports how many, and the buffer is connected
-- with that number as its head.
pub seq_lem :
    (b : ReorderedBuffer) (n : ℕ) (payload : List ℕ)
    → b.state ≡ closed
    → Window.IsValid b.ring
    → available b ≡ 0
    → n < 2 ^ 32
    → let w = min (length payload) (room b) in
      (b' : ReorderedBuffer) × (seq b n payload ≡ returns (b', outcome w (length payload) b'))
      × (stream b' ≡ take (room b) payload)
      × (b'.head_seq ≡ n)
      × IsConnected b'
seq_lem b n payload shut valid empty small =
    let opened : ReorderedBuffer = record b { state = connected; head_seq = n; tail_seq = n } in
    let c : IsConnected opened = record {
      ring_valid = valid;
      is_connected = refl;
      head_word = small;
      span = omega (arith, empty);
    } in
    let none_yet = nil_of_length-zero (contents b.ring) (length-contents b.ring ∙ empty) in
    let (b', e, a) = fast_path_insert_lem opened payload c in
    (
      b',
      seq_closed b n payload shut ∙ e,
      a.stream_grows ∙ ap (λ l. l ++ take (room b) payload) none_yet,
      a.head_kept,
      a.connected_still,
    )

-- On a connected buffer, `read_data` copies the oldest bytes of the stream into the caller's
-- slice, as many as there are and it has room for, takes just those off the stream, and the
-- buffer stays connected, with a ring of the same size.
pub read_data_lem :
    (fuel : ℕ) (b : ReorderedBuffer) (out : List ℕ)
    → IsConnected b
    → let n = min (available b) (length out) in
      (b' : ReorderedBuffer) × (read_data fuel b out
        ≡ returns (b', take n (stream b) ++ drop n out, n))
      × (stream b' ≡ drop n (stream b))
      × (b'.ring.size ≡ b.ring.size)
      × IsConnected b'
unfolding read_data_common RingBuffer.read_from_head
read_data_lem fuel b out c =
    let n : ℕ = min (available b) (length out) in
    let (ring, e, same_size, rest, valid) =
      read_from_head_with_increment_lem c.ring_valid out (length out) in
    let all : min (length out) n ≡ n = omega arith in
    let left : stream (record b { ring = ring }) ≡ drop n (stream b) =
      rest ∙ ap (λ k. drop k (contents b.ring)) all in
    let fewer : RingBuffer.available ring ≡ available b - n = omega (
      arith,
      length-contents ring,
      length-contents b.ring,
      ap length left,
      length-drop {0} n (contents b.ring),
    ) in
    (
      record b { ring = ring; head_seq = add32 b.head_seq (n % 2 ^ 32) },
      read_data_connected fuel b out c.is_connected ∙ rw e,
      left,
      same_size,
      record {
        ring_valid = valid;
        is_connected = c.is_connected;
        head_word = omega arith;
        span = omega (arith, fewer, c.span);
      },
    )
