-- ===== src/RingBuffer/Read.antt =====
-- The reads of framework/src/state/ring_buffer.rs hand out the oldest bytes held, in order.
use native.Mathlib.Nat.{mod-eq_of_lt, mod-eq-sub-mod, mod-lt, mod-add-mod}
use native.Mathlib.Decide.{dec_lt}
use net_bricks.Prelude.{
  ℕ, ◌⊎◌, inl, inr, ◌+◌, ◌-◌, ◌%◌, ◌≤◌, ◌<◌, ◌≡◌, refl, sym, ap, ◌∙◌, ◌++◌, List, none, some, min,
  arith, length, get_or, get_or-write_slice, get_or-copy_into, get_or-drop, get_or-take,
  length-copy_into, length-write_slice, length-drop, take, length-take, ltb, if◌then◌else◌, add64,
  write_slice, copy_into, drop, get_or_ext,
}
use net_bricks.RingBuffer.{
  RingBuffer, wrapped_read, read_from_head_with_increment, available, seek_head,
}
use net_bricks.RingBuffer.Window.{
  IsValid, bytes_from, length-bytes_from, get_or-bytes_from, contents, length-contents,
  get_or-contents, size_pos, size_le, bit_and-mask, wrapped_place,
}

-- The caller's slice after a read that may go round the end at `size`.
wrapped_out : List ℕ → ℕ → ℕ → List ℕ → List ℕ
wrapped_out vec size offset out =
    let first = copy_into out (drop offset vec) in
    if ltb size (offset + length out)
    then write_slice (size - offset) first (take (length out - (size - offset)) vec)
    else first

length-wrapped_out :
    (vec : List ℕ) (size offset : ℕ) (out : List ℕ)
    → length (wrapped_out vec size offset out) ≡ length out
unfolding wrapped_out
length-wrapped_out vec size offset out = ground (
  arith,
  length-copy_into out (drop offset vec),
  length-write_slice (size - offset) (copy_into out (drop offset vec))
      (take (length out - (size - offset)) vec),
)

get_or-wrapped_out :
    (vec : List ℕ) (size offset : ℕ) (out : List ℕ) (i : ℕ)
    → length vec ≡ size
    → offset < size
    → length out ≤ size
    → i < length out
    → get_or (wrapped_out vec size offset out) i 0 ≡ get_or vec ((offset + i) % size) 0
unfolding wrapped_out
get_or-wrapped_out vec size offset out i stored h k l =
    let first = copy_into out (drop offset vec) in
    let n : ℕ = length out - (size - offset) in
    let one = get_or-copy_into out (drop offset vec) i 0 l in
    let two =
      get_or-write_slice (size - offset) first (take n vec) i 0
        (omega (arith, length-copy_into out (drop offset vec))) in
    elim (dec_lt (offset + i) size) [
      | yes inside ↦
          rw (mod-eq_of_lt inside)
            (ground (arith, one, two, length-drop offset vec, get_or-drop offset vec i 0))
      | no past ↦
          let e : (offset + i) % size ≡ i - (size - offset) =
            mod-eq-sub-mod (omega arith) ∙ mod-eq_of_lt (omega arith) ∙ omega arith in
          rw e
            (ground (arith, one, two, length-take n vec, get_or-take n vec (i - (size - offset)) 0))
    ]

-- A read that stays within the size does not panic.
wrapped_read-some :
    (r : RingBuffer) (offset : ℕ) (out : List ℕ)
    → length r.vec ≡ r.size
    → offset < r.size
    → length out ≤ r.size
    → wrapped_read r offset out ≡ some (wrapped_out r.vec r.size offset out, length out)
unfolding wrapped_read wrapped_out
wrapped_read-some r offset out stored h k = elim (dec_lt r.size (offset + length out)) [
  | yes past ↦
      let e : min (length out) (length r.vec - offset) ≡ r.size - offset = omega arith in
      ground (arith, e)
  | no inside ↦
      let e : min (length out) (length r.vec - offset) ≡ length out = omega arith in
      ground (arith, e)
]

wrapped_out-eq-bytes_from :
    (vec : List ℕ) (size offset : ℕ) (out : List ℕ)
    → length vec ≡ size
    → offset < size
    → length out ≤ size
    → wrapped_out vec size offset out ≡ bytes_from vec size offset (length out)
wrapped_out-eq-bytes_from vec size offset out stored h k =
    get_or_ext 0 (wrapped_out vec size offset out) (bytes_from vec size offset (length out))
      (length-wrapped_out vec size offset out
        ∙ sym (length-bytes_from vec size offset (length out)))
      λ i p.
        let q : i < length out = omega (arith, length-wrapped_out vec size offset out) in
        get_or-wrapped_out vec size offset out i stored h k q
        ∙ sym (get_or-bytes_from vec size offset (length out) i q)

-- The bytes from a counter's place on are the first of those held.
bytes_from-head :
    (r : RingBuffer) (n : ℕ)
    → n ≤ available r
    → bytes_from r.vec r.size (r.head % r.size) n ≡ take n (contents r)
bytes_from-head r n h =
    get_or_ext 0 (bytes_from r.vec r.size (r.head % r.size) n) (take n (contents r))
      (omega (
        arith,
        length-bytes_from r.vec r.size (r.head % r.size) n,
        length-take {0} n (contents r),
        length-contents r,
      ))
      λ i p.
        let q : i < n = omega (arith, length-bytes_from r.vec r.size (r.head % r.size) n) in
        get_or-bytes_from r.vec r.size (r.head % r.size) n i q
        ∙ ap (λ t. get_or r.vec t 0) (mod-add-mod r.head r.size i)
        ∙ sym (get_or-contents r i (omega arith))
        ∙ sym (get_or-take n (contents r) i 0 q)

module _ {r : RingBuffer} (v : IsValid r) where
  abbrev pub moved : ℕ → RingBuffer
  moved k = record r { head = add64 r.head k }

  available-moved : (k : ℕ) → k ≤ available r → available (moved k) ≡ available r - k
  available-moved k h = omega (arith, size_le v, v.head_word, v.tail_word, v.room)

  pub moved-IsValid : (k : ℕ) → k ≤ available r → IsValid (moved k)
  moved-IsValid k h = record {
    bits = v.bits;
    power = v.power;
    small = v.small;
    masked = v.masked;
    stored = v.stored;
    head_word = omega arith;
    tail_word = v.tail_word;
    room = omega (arith, available-moved k h, v.room);
  }

  -- Moving the head on drops the oldest bytes.
  pub contents-moved : (k : ℕ) → k ≤ available r → contents (moved k) ≡ drop k (contents r)
  contents-moved k h =
      get_or_ext 0 (contents (moved k)) (drop k (contents r))
        (omega (
          arith,
          length-contents (moved k),
          available-moved k h,
          length-drop {0} k (contents r),
          length-contents r,
        ))
        λ i p.
          let q : i < available r - k =
            omega (arith, length-contents (moved k), available-moved k h) in
          get_or-contents (moved k) i (omega (arith, available-moved k h))
          ∙ ap (λ t. get_or r.vec t 0) (wrapped_place v (r.head + k) i)
          ∙ ap (λ t. get_or r.vec (t % r.size) 0) (omega arith)
          ∙ sym (get_or-contents r (k + i) (omega arith))
          ∙ sym (get_or-drop k (contents r) i 0)

  -- A read from a valid ring never panics. It copies the oldest bytes held into the caller's
  -- slice, as many as there are and the slice has room for, leaves the rest of the slice, and
  -- drops `increment` of them, but no more than it has read. The ring stays valid and of its
  -- size.
  pub read_from_head_with_increment_lem :
      (out : List ℕ) (increment : ℕ)
      → let n = min (available r) (length out) in
        (r' : RingBuffer) × (read_from_head_with_increment r out increment
          ≡ some (r', take n (contents r) ++ drop n out, n))
        × (r'.size ≡ r.size)
        × (contents r' ≡ drop (min increment n) (contents r))
        × IsValid r'
  unfolding read_from_head_with_increment
  read_from_head_with_increment_lem out increment =
      let n : ℕ = min (available r) (length out) in
      let k : ℕ = min increment n in
      let count : length (take n out) ≡ n = omega (arith, length-take {0} n out) in
      let place = mod-lt r.head (size_pos v) in
      let fits : length (take n out) ≤ r.size = omega (arith, v.room) in
      let got =
        wrapped_read-some (moved k) (r.head % r.size) (take n out) v.stored place fits
        ∙ ap (λ l. some (l, length (take n out)))
            (wrapped_out-eq-bytes_from r.vec r.size (r.head % r.size) (take n out) v.stored place
              fits)
        ∙ ap (λ m. some (bytes_from r.vec r.size (r.head % r.size) m, m)) count
        ∙ ap (λ l. some (l, n)) (bytes_from-head r n (omega arith)) in
      (
        moved k,
        rw (bit_and-mask v r.head, got),
        refl,
        contents-moved k (omega arith),
        moved-IsValid k (omega arith),
      )

  -- On a valid ring, `seek_head` either panics, with fewer bytes held than are to be dropped, or
  -- it drops the oldest `seek` bytes and the ring stays valid.
  pub seek_head_lem :
      (seek : ℕ)
      → ((available r < seek) × (seek_head r seek ≡ none))
        ⊎ ((r' : RingBuffer) × (seek_head r seek ≡ some r')
            × (contents r' ≡ drop seek (contents r))
            × IsValid r')
  unfolding seek_head
  seek_head_lem seek = elim (dec_lt (available r) seek) [
    | yes h ↦ inl (h, ground arith)
    | no h ↦ inr (
      moved seek,
      ground arith,
      contents-moved seek (omega arith),
      moved-IsValid seek (omega arith),
    )
  ]
