-- ===== src/RingBuffer.antt =====
-- framework/src/state/ring_buffer.rs: a byte ring whose head and tail are `usize` counters that
-- wrap. A method returns the new ring beside its result; `none` is a panic.
mod Tests
pub mod Window
pub mod Write
pub mod Append
pub mod Read
pub mod Gap
pub mod Create
use net_bricks.Prelude.{
  ℕ, ◌+◌, ◌-◌, ◌≡◌, List, [], ◌++◌, Option, none, some, min, bit_and, length, take, drop, replicate,
  add64, sub64, ltb, leb, ◌==◌, if◌then◌else◌, ◌>>=◌, ◌>>◌, assert, write_slice, copy_into,
}
use net_bricks.Errors.{Result, ok, err, invalid_ring_size}

-- Bytes are only moved, so a byte is any number.
pub record RingBuffer : Type 0 where
  pub head : ℕ
  pub tail : ℕ
  pub size : ℕ
  pub mask : ℕ
  pub vec : List ℕ

pub new : ℕ → Result RingBuffer
new bytes =
    if bit_and bytes (sub64 bytes 1) == 0
    then ok
        (record { head = 0; tail = 0; size = bytes; mask = sub64 bytes 1; vec = replicate bytes 0 })
    else err (invalid_ring_size bytes)

-- The second part of a copy that reaches past the end: what is left goes to the front.
pub wrapped_read : RingBuffer → ℕ → List ℕ → Option (List ℕ × ℕ)
wrapped_read r offset out =
    assert (ltb offset r.size)
    >> assert (leb (length out) r.size)
    >> assert (leb offset (length r.vec))
    >> (let bytes = min (length out) (length r.vec - offset) in
        let first = copy_into out (drop offset r.vec) in
        let remaining = length out - bytes in
        if ltb r.size (offset + length out)
        then (assert (leb remaining (length r.vec))
            >> some (write_slice bytes first (take remaining r.vec), bytes + remaining))
        else some (first, bytes))

pub wrapped_write : RingBuffer → ℕ → List ℕ → Option (RingBuffer × ℕ)
wrapped_write r offset src =
    assert (ltb offset r.size)
    >> assert (leb (length src) r.size)
    >> assert (leb offset (length r.vec))
    >> (let bytes = min (length src) (length r.vec - offset) in
        let first = write_slice offset r.vec src in
        let remaining = length src - bytes in
        if ltb r.size (offset + length src)
        then (assert (leb remaining (length r.vec))
            >> some (record r { vec = write_slice 0 first (drop bytes src) }, bytes + remaining))
        else some (record r { vec = first }, bytes))

pub write_at_offset : RingBuffer → ℕ → List ℕ → Option (RingBuffer × ℕ)
write_at_offset r offset src = wrapped_write r offset src

pub read_from_offset : RingBuffer → ℕ → List ℕ → Option (List ℕ × ℕ)
read_from_offset r offset out = wrapped_read r offset out

abbrev pub seek_tail : RingBuffer → ℕ → RingBuffer
seek_tail r increment_by = record r { tail = add64 r.tail increment_by }

pub write_at_tail : RingBuffer → List ℕ → Option (RingBuffer × ℕ)
write_at_tail r src =
    let available = sub64 (add64 r.mask r.head) r.tail in
    let write = min (length src) available in
    let offset = bit_and r.tail r.mask in wrapped_write (seek_tail r write) offset (take write src)

pub write_at_offset_from_tail : RingBuffer → ℕ → List ℕ → Option (RingBuffer × ℕ)
write_at_offset_from_tail r offset src =
    let available = sub64 (add64 r.mask r.head) r.tail in
    let offset_tail = add64 r.tail offset in
    let available_at_offset = sub64 (add64 r.mask r.head) offset_tail in
    let write = min (length src) available_at_offset in
    let index = bit_and offset_tail r.mask in
    if ltb available offset then some (r, 0) else wrapped_write r index (take write src)

abbrev pub available : RingBuffer → ℕ
available r = sub64 r.tail r.head

abbrev pub read_offset : RingBuffer → ℕ
read_offset r = bit_and r.head r.mask

-- The slice `data[..to_read]` is filled; the rest of the caller's buffer stays.
pub read_from_head_with_increment : RingBuffer → List ℕ → ℕ → Option (RingBuffer × List ℕ × ℕ)
read_from_head_with_increment r out increment =
    let offset = read_offset r in
    let to_read = min (available r) (length out) in
    let moved = record r { head = add64 r.head (min increment to_read) } in
    wrapped_read moved offset (take to_read out) >>= λ got.
    some (moved, got.0 ++ drop to_read out, got.1)

unfoldable pub read_from_head : RingBuffer → List ℕ → Option (RingBuffer × List ℕ × ℕ)
read_from_head r out = read_from_head_with_increment r out (length out)

pub seek_head : RingBuffer → ℕ → Option RingBuffer
seek_head r seek = do assert (leb seek (available r)); some (record r { head = add64 r.head seek })

pub len : RingBuffer → ℕ
len r = r.size

pub clear : RingBuffer → RingBuffer
clear r = record r { head = 0; tail = 0 }
