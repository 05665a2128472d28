-- ===== src/RingBuffer/Append.antt =====
-- `write_at_tail` of framework/src/state/ring_buffer.rs appends to the bytes held.
use native.Mathlib.Nat.{mod-lt}
use native.Mathlib.Decide.{dec_lt}
use mathlib.Core.List.{append-nil}
use net_bricks.Prelude.{
  [], ℕ, inl, ◌+◌, ◌-◌, ◌%◌, ◌≤◌, ◌<◌, ◌≡◌, refl, sym, ap, ◌∙◌, ◌++◌, List, some, min, arith,
  length, get_or, take, length-take, add64, sub64, get_or_ext, length-append, get_or-append_left,
  get_or-append_right,
}
use net_bricks.RingBuffer.{RingBuffer, write_at_tail, available, seek_tail}
use net_bricks.RingBuffer.Write.{
  wrapped_vec, length-wrapped_vec, placed, wrapped_write_lem, after_write_kept, after_write_fresh,
}
use net_bricks.RingBuffer.Window.{
  IsValid, contents, length-contents, get_or-contents, size_pos, size_le, bit_and-mask,
}

module _ {r : RingBuffer} (v : IsValid r) where
  -- The room that the writers compute: one byte stays free.
  pub free_room : sub64 (add64 r.mask r.head) r.tail ≡ r.size - 1 - available r
  free_room = omega (arith, size_le v, size_pos v, v.masked, v.head_word, v.tail_word, v.room)

  -- The ring after `n` more bytes have come to lie behind those held.
  pub contents-grow :
      (r' : RingBuffer) (src : List ℕ)
      → r'.head ≡ r.head
      → r'.size ≡ r.size
      → available r' ≡ available r + length src
      → ((q : ℕ)
          → q < available r
          → get_or r'.vec ((r.head + q) % r.size) 0 ≡ get_or r.vec ((r.head + q) % r.size) 0)
      → ((i : ℕ)
          → i < length src
          → get_or r'.vec ((r.head + (available r + i)) % r.size) 0 ≡ get_or src i 0)
      → contents r' ≡ contents r ++ src
  contents-grow r' src eh es ea old fresh =
      get_or_ext 0 (contents r') (contents r ++ src)
        (omega (arith, length-contents r', length-contents r, length-append {0} (contents r) src))
        place
    where
      place :
          (i : ℕ)
          → i < length (contents r')
          → get_or (contents r') i 0 ≡ get_or (contents r ++ src) i 0
      place i h =
          let here : get_or (contents r') i 0 ≡ get_or r'.vec ((r.head + i) % r.size) 0 =
            rw (get_or-contents r' i (omega (arith, length-contents r')), eh, es) in
          elim (dec_lt i (available r)) [
            | yes k ↦
                here
                ∙ old i k
                ∙ sym (get_or-contents r i k)
                ∙ sym (get_or-append_left (contents r) src i 0 (omega (arith, length-contents r)))
            | no k ↦
                let j : ℕ = i - available r in
                let e : i ≡ available r + j = omega arith in
                let d : i - length (contents r) ≡ j = omega (arith, length-contents r) in
                here
                ∙ ap (λ t. get_or r'.vec ((r.head + t) % r.size) 0) e
                ∙ fresh j (omega (arith, length-contents r'))
                ∙ sym (ap (λ t. get_or src t 0) d)
                ∙ sym (get_or-append_right (contents r) src i 0 (omega (arith, length-contents r)))
          ]

  -- Moving the tail on takes in as many bytes as there is room for.
  pub available-seek_tail :
      (n : ℕ) → available r + n < r.size → available (seek_tail r n) ≡ available r + n
  available-seek_tail n h = omega (arith, size_le v, v.head_word, v.tail_word)

  pub seek_tail-IsValid : (n : ℕ) → available r + n < r.size → IsValid (seek_tail r n)
  seek_tail-IsValid n h = record {
    bits = v.bits;
    power = v.power;
    small = v.small;
    masked = v.masked;
    stored = v.stored;
    head_word = v.head_word;
    tail_word = omega arith;
    room = omega (arith, available-seek_tail n h);
  }

  pub placed-IsValid : (offset : ℕ) (src : List ℕ) → IsValid (placed r offset src)
  placed-IsValid offset src = record {
    bits = v.bits;
    power = v.power;
    small = v.small;
    masked = v.masked;
    stored = length-wrapped_vec r.vec r.size ((r.tail + offset) % r.size) src ∙ v.stored;
    head_word = v.head_word;
    tail_word = v.tail_word;
    room = v.room;
  }

  -- Bytes written behind the tail are not part of the contents yet.
  pub contents-placed :
      (offset : ℕ) (src : List ℕ)
      → available r + offset + length src ≤ r.size
      → contents (placed r offset src) ≡ contents r
  contents-placed offset src fits =
      contents-grow (placed r offset src) [] refl refl (omega arith)
        (λ q h. after_write_kept v offset src fits q (omega (arith, v.room)) (inl (omega arith)))
        (λ i h. elim h [ ])
      ∙ append-nil (contents r)

  pub contents-placed-seek_tail :
      (src : List ℕ)
      → available r + length src < r.size
      → contents (seek_tail (placed r 0 src) (length src)) ≡ contents r ++ src
  contents-placed-seek_tail src h =
      let fits : available r + 0 + length src ≤ r.size = omega arith in
      contents-grow (seek_tail (placed r 0 src) (length src)) src refl refl
        (available-seek_tail (length src) h)
        (λ q k. after_write_kept v 0 src fits q (omega arith) (inl (omega arith)))
        (λ i k.
          let e : available r + 0 + i ≡ available r + i = omega arith in
          rw e at (after_write_fresh v 0 src fits i k))

module _ {r : RingBuffer} (v : IsValid r) where
  -- `write_at_tail` as two moves: the bytes that fit are placed, and the tail moves past them.
  pub write_at_tail-some :
      (src : List ℕ)
      → let w = min (length src) (r.size - 1 - available r) in
        write_at_tail r src ≡ some (seek_tail (placed r 0 (take w src)) w, w)
  unfolding write_at_tail
  write_at_tail-some src =
      let w : ℕ = min (length src) (r.size - 1 - available r) in
      let got = take w src in
      let count : length got ≡ w = omega (arith, length-take {0} w src) in
      let e : r.tail ≡ r.tail + 0 = omega arith in
      rw (free_room v, bit_and-mask v r.tail)
        (wrapped_write_lem (seek_tail r w) (r.tail % r.size) got v.stored
            (mod-lt r.tail (size_pos v)) (omega (arith, v.room))
          ∙ ap
              (λ n. some (
                record r {
                  tail = add64 r.tail w;
                  vec = wrapped_vec r.vec r.size (r.tail % r.size) got;
                },
                n,
              ))
              count
          ∙ ap
              (λ t. some (
                record r { tail = add64 r.tail w; vec = wrapped_vec r.vec r.size (t % r.size) got },
                w,
              ))
              e)

  -- On a valid ring, `write_at_tail` does not panic: it takes the bytes of the source that fit,
  -- up to one byte less than the size in all, and returns their number. The ring is then valid,
  -- of the same size, and holds what it held followed by those bytes.
  pub write_at_tail_lem :
      (src : List ℕ)
      → let w = min (length src) (r.size - 1 - available r) in
        (r' : RingBuffer) × (write_at_tail r src ≡ some (r', w))
        × (r'.size ≡ r.size)
        × (contents r' ≡ contents r ++ take w src)
        × IsValid r'
  write_at_tail_lem src =
      let w : ℕ = min (length src) (r.size - 1 - available r) in
      let got = take w src in
      let count : length got ≡ w = omega (arith, length-take {0} w src) in
      let after = λ (n : ℕ). seek_tail (placed r 0 got) n in
      (
        after w,
        write_at_tail-some src,
        refl,
        ap (λ n. contents (after n)) (sym count)
            ∙ contents-placed-seek_tail v got (omega (arith, v.room)),
        seek_tail-IsValid (placed-IsValid v 0 got) w (omega (arith, v.room)),
      )
