-- ===== src/RingBuffer/Gap.antt =====
-- Out-of-order writes into framework/src/state/ring_buffer.rs: bytes written behind the tail become
-- contents when the gap before them has been filled and the tail sought over them.
use native.Mathlib.Nat.{mod-lt}
use native.Mathlib.Decide.{dec_lt}
use net_bricks.Prelude.{
  ℕ, inl, inr, ◌+◌, ◌-◌, ◌%◌, ◌≤◌, ◌<◌, ◌≡◌, refl, sym, ap, ◌∙◌, ◌++◌, List, some, min, arith,
  length, get_or, take, length-take, take_all, add64, sub64, length-append, get_or-append_left,
  get_or-append_right, bit_and, ltb, false,
}
use net_bricks.RingBuffer.{
  RingBuffer, write_at_tail, write_at_offset_from_tail, available, seek_tail,
}
use net_bricks.RingBuffer.Window.{IsValid, contents, size_pos, size_le, bit_and-mask, wrapped_place}
use net_bricks.RingBuffer.Write.{wrapped_write_lem, after_write_kept, after_write_fresh, placed}
use net_bricks.RingBuffer.Append.{
  free_room, contents-grow, contents-placed, placed-IsValid, write_at_tail-some,
  available-seek_tail, seek_tail-IsValid,
}

module _ {r : RingBuffer} (v : IsValid r) where
  -- `write_at_offset_from_tail` places the bytes that fit, none if the offset is past the room.
  pub write_at_offset_from_tail-some :
      (offset : ℕ) (src : List ℕ)
      → offset ≤ r.size - 1 - available r
      → let w = min (length src) (r.size - 1 - available r - offset) in
        write_at_offset_from_tail r offset src ≡ some (placed r offset (take w src), w)
  unfolding write_at_offset_from_tail
  write_at_offset_from_tail-some offset src h =
      let room : sub64 (add64 r.mask r.head) (add64 r.tail offset)
          ≡ r.size - 1 - available r - offset =
        omega (arith, size_le v, size_pos v, v.masked, v.head_word, v.tail_word, v.room) in
      let w : ℕ = min (length src) (r.size - 1 - available r - offset) in
      let got = take w src in
      let count : length got ≡ w = omega (arith, length-take {0} w src) in
      let near : ltb (r.size - 1 - available r) offset ≡ false = ground arith in
      let place : bit_and (add64 r.tail offset) r.mask ≡ (r.tail + offset) % r.size =
        bit_and-mask v (add64 r.tail offset)
        ∙ ap (λ t. t % r.size) (omega arith)
        ∙ wrapped_place v (r.tail + offset) 0
        ∙ ap (λ t. t % r.size) (omega arith) in
      rw (free_room v, near, room, place)
        (wrapped_write_lem r ((r.tail + offset) % r.size) got v.stored
            (mod-lt (r.tail + offset) (size_pos v)) (omega (arith, v.room))
          ∙ ap (λ n. some (placed r offset got, n)) count)

  write_at_offset_from_tail_far :
      (offset : ℕ) (src : List ℕ)
      → r.size - 1 - available r < offset
      → write_at_offset_from_tail r offset src ≡ some (r, 0)
  unfolding write_at_offset_from_tail
  write_at_offset_from_tail_far offset src h = rw (free_room v) (ground arith)

  -- On a valid ring, a write at an offset behind the tail never panics, leaves the contents as
  -- they are and the ring valid. It returns how many bytes fit before the reserved byte, none if
  -- the offset lies beyond that.
  pub write_at_offset_from_tail_lem :
      (offset : ℕ) (src : List ℕ)
      → let w = min (length src) (r.size - 1 - available r - offset) in
        (r' : RingBuffer) × (write_at_offset_from_tail r offset src ≡ some (r', w))
        × (contents r' ≡ contents r)
        × IsValid r'
  write_at_offset_from_tail_lem offset src = elim (dec_lt (r.size - 1 - available r) offset) [
    | yes far ↦
        let none_fit : min (length src) (r.size - 1 - available r - offset) ≡ 0 = omega arith in
        (
          r,
          write_at_offset_from_tail_far offset src far ∙ ap (λ n. some (r, n)) (sym none_fit),
          refl,
          v,
        )
    | no near ↦
        let w : ℕ = min (length src) (r.size - 1 - available r - offset) in
        (
          placed r offset (take w src),
          write_at_offset_from_tail-some offset src (omega arith),
          contents-placed v offset (take w src) (omega (arith, length-take {0} w src, v.room)),
          placed-IsValid v offset (take w src),
        )
  ]

-- The places behind the contents once both parts are written, the later one first.
filled_place :
    {r : RingBuffer} (first later : List ℕ) (v : IsValid r)
    → available r + length first + length later < r.size
    → (i : ℕ) → i < length first + length later
    → get_or
        (placed (placed r (length first) later) 0 first).vec
        ((r.head + (available r + i)) % r.size)
        0
      ≡ get_or (first ++ later) i 0
filled_place {r} first later v fits i h =
    let early-IsValid = placed-IsValid v (length first) later in
    elim (dec_lt i (length first)) [
      | yes k ↦
          let e : available r + i ≡ available r + 0 + i = omega arith in
          ap
            (λ q.
              get_or (placed (placed r (length first) later) 0 first).vec ((r.head + q) % r.size) 0)
            e
          ∙ after_write_fresh early-IsValid 0 first (omega arith) i k
          ∙ sym (get_or-append_left first later i 0 k)
      | no k ↦
          let j : ℕ = i - length first in
          let e : available r + i ≡ available r + length first + j = omega arith in
          after_write_kept early-IsValid 0 first (omega arith) (available r + i) (omega arith)
            (inr (omega arith))
          ∙ ap (λ q. get_or (placed r (length first) later).vec ((r.head + q) % r.size) 0) e
          ∙ after_write_fresh v (length first) later (omega arith) j (omega arith)
          ∙ sym (get_or-append_right first later i 0 (omega arith))
    ]

-- On a valid ring with room for both, when `later` is written behind a gap, the gap is then
-- filled by `first`, and the tail is sought over `later`, the ring is valid and holds what it
-- held followed by `first` and `later`.
pub fill_gap :
    {r : RingBuffer} (first later : List ℕ)
    → IsValid r
    → available r + length first + length later < r.size
    → (early : RingBuffer) × (filled : RingBuffer) × (write_at_offset_from_tail r
          (length first)
          later
        ≡ some (early, length later))
      × (write_at_tail early first ≡ some (filled, length first))
      × (contents (seek_tail filled (length later)) ≡ contents r ++ (first ++ later))
      × IsValid (seek_tail filled (length later))
fill_gap {r} first later v fits =
    let early : RingBuffer = placed r (length first) later in
    let early-IsValid = placed-IsValid v (length first) later in
    let filled : RingBuffer = seek_tail (placed early 0 first) (length first) in
    let filled-IsValid =
      seek_tail-IsValid (placed-IsValid early-IsValid 0 first) (length first) (omega arith) in
    let whole : min (length later) (r.size - 1 - available r - length first) ≡ length later =
      omega arith in
    let whole' : min (length first) (r.size - 1 - available r) ≡ length first = omega arith in
    let more =
      available-seek_tail (placed-IsValid early-IsValid 0 first) (length first) (omega arith) in
    let both = length-append {0} first later in
    (
      early,
      filled,
      write_at_offset_from_tail-some v (length first) later (omega arith)
          ∙ ap (λ n. some (placed r (length first) (take n later), n)) whole
          ∙ ap (λ l. some (placed r (length first) l, length later))
              (take_all (length later) later (omega arith)),
      write_at_tail-some early-IsValid first
          ∙ ap (λ n. some (seek_tail (placed early 0 (take n first)) n, n)) whole'
          ∙ ap (λ l. some (seek_tail (placed early 0 l) (length first), length first))
              (take_all (length first) first (omega arith)),
      contents-grow v (seek_tail filled (length later)) (first ++ later) refl refl
          (available-seek_tail filled-IsValid (length later) (omega arith)
            ∙ omega (arith, more, both))
          (λ q h.
            after_write_kept early-IsValid 0 first (omega arith) q (omega arith) (inl (omega arith))
            ∙ after_write_kept v (length first) later (omega arith) q (omega arith)
                (inl (omega arith)))
          (λ i h. filled_place first later v (omega arith) i (omega arith)),
      seek_tail-IsValid filled-IsValid (length later) (omega (arith, more)),
    )
