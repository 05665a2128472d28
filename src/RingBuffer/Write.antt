-- ===== src/RingBuffer/Write.antt =====
-- What the writes of framework/src/state/ring_buffer.rs do to the bytes held.
use native.Mathlib.Nat.{mod-eq_of_lt, mod-eq-sub-mod, mod-lt, mod-add-mod, add-mod_right}
use native.Mathlib.Decide.{dec_lt}
use net_bricks.Prelude.{
  ℕ, ◌⊎◌, ◌+◌, ◌-◌, ◌%◌, ◌≤◌, ◌<◌, ◌≡◌, ap, ◌∙◌, List, some, min, arith, length, get_or,
  get_or-write_slice, get_or-drop, length-write_slice, length-drop, ltb, leb, ◌&&◌, if◌then◌else◌,
  write_slice, drop,
}
use net_bricks.RingBuffer.{RingBuffer, wrapped_write, available}
use net_bricks.RingBuffer.Window.{IsValid, size_pos, tail_place}

-- The bytes after a copy that goes round the end at `size`, place by place.
unfoldable pub wrapped_vec : List ℕ → ℕ → ℕ → List ℕ → List ℕ
wrapped_vec vec size offset src =
    let first = write_slice offset vec src in
    if ltb size (offset + length src) then write_slice 0 first (drop (size - offset) src) else first

pub length-wrapped_vec :
    (vec : List ℕ) (size offset : ℕ) (src : List ℕ)
    → length (wrapped_vec vec size offset src) ≡ length vec
unfolding wrapped_vec
length-wrapped_vec vec size offset src = ground (
  arith,
  length-write_slice offset vec src,
  length-write_slice 0 (write_slice offset vec src) (drop (size - offset) src),
)

-- A write that stays within the size does not panic, and changes the bytes only.
pub wrapped_write_lem :
    (r : RingBuffer) (offset : ℕ) (src : List ℕ)
    → length r.vec ≡ r.size
    → offset < r.size
    → length src ≤ r.size
    → wrapped_write r offset src
      ≡ some (record r { vec = wrapped_vec r.vec r.size offset src }, length src)
unfolding wrapped_write wrapped_vec
wrapped_write_lem r offset src stored h k = elim (dec_lt r.size (offset + length src)) [
  | yes past ↦
      let e : min (length src) (length r.vec - offset) ≡ r.size - offset = omega arith in
      ground (arith, e)
  | no inside ↦
      let e : min (length src) (length r.vec - offset) ≡ length src = omega arith in
      ground (arith, e)
]

-- The place that lies `j` after `offset` gets byte `j` of the source, or keeps its own past its end.
get_or-wrapped_vec :
    (vec : List ℕ) (size offset : ℕ) (src : List ℕ) (j : ℕ)
    → length vec ≡ size
    → offset < size
    → length src ≤ size
    → j < size
    → get_or (wrapped_vec vec size offset src) ((offset + j) % size) 0
      ≡ (if ltb j (length src) then get_or src j 0 else get_or vec ((offset + j) % size) 0)
unfolding wrapped_vec
get_or-wrapped_vec vec size offset src j stored h k l = elim (dec_lt (offset + j) size) [
  | yes inside ↦ rw (mod-eq_of_lt inside) (
      ground (
        arith,
        get_or-write_slice offset vec src (offset + j) 0,
        length-write_slice offset vec src,
        get_or-write_slice 0 (write_slice offset vec src) (drop (size - offset) src) (offset + j) 0,
        length-drop (size - offset) src,
      ))
  | no past ↦
      let e : (offset + j) % size ≡ offset + j - size =
        mod-eq-sub-mod (omega arith) ∙ mod-eq_of_lt (omega arith) in
      let k : ℕ = offset + j - size in
      let d : size - offset + k ≡ j = omega arith in
      rw e (
        ground (
          arith,
          d,
          length-write_slice offset vec src,
          get_or-write_slice offset vec src k 0,
          get_or-write_slice 0 (write_slice offset vec src) (drop (size - offset) src) k 0,
          length-drop (size - offset) src,
          get_or-drop (size - offset) src k 0,
        ))
]

-- The ring with `src` written `offset` bytes behind the tail.
abbrev pub placed : RingBuffer → ℕ → List ℕ → RingBuffer
placed r offset src = record r { vec = wrapped_vec r.vec r.size ((r.tail + offset) % r.size) src }

module _ {r : RingBuffer} (v : IsValid r) where
  -- What the place of the byte `q` after the head holds when `src` has been written `offset` bytes
  -- after the tail, for everything that fits before the head comes round again.
  pub after_write :
      (offset : ℕ) (src : List ℕ) (q : ℕ)
      → available r + offset + length src ≤ r.size
      → q < r.size
      → get_or (wrapped_vec r.vec r.size ((r.tail + offset) % r.size) src) ((r.head + q) % r.size) 0
        ≡ (if leb (available r + offset) q && ltb q (available r + offset + length src)
            then get_or src (q - (available r + offset)) 0
            else get_or r.vec ((r.head + q) % r.size) 0)
  after_write offset src q fits h = elim (dec_lt q (available r + offset)) [
    | yes before ↦
        let j : ℕ = r.size - (available r + offset) + q in
        let e : (r.tail + offset + j) % r.size ≡ (r.head + q) % r.size =
          ap (λ t. t % r.size) (omega arith)
          ∙ tail_place v (offset + j)
          ∙ ap (λ t. t % r.size) (omega arith)
          ∙ add-mod_right (r.head + q) r.size in
        rw
          (
            ← e,
            ← mod-add-mod (r.tail + offset) r.size j,
            get_or-wrapped_vec r.vec r.size ((r.tail + offset) % r.size) src j v.stored
                (mod-lt (r.tail + offset) (size_pos v)) (omega arith) (omega arith),
          )
          (ground arith)
    | no after ↦
        let j : ℕ = q - (available r + offset) in
        let e : (r.tail + offset + j) % r.size ≡ (r.head + q) % r.size =
          ap (λ t. t % r.size) (omega arith)
          ∙ tail_place v (offset + j)
          ∙ ap (λ t. t % r.size) (omega arith) in
        rw
          (
            ← e,
            ← mod-add-mod (r.tail + offset) r.size j,
            get_or-wrapped_vec r.vec r.size ((r.tail + offset) % r.size) src j v.stored
                (mod-lt (r.tail + offset) (size_pos v)) (omega arith) (omega arith),
          )
          (ground arith)
  ]

  module _ (offset : ℕ) (src : List ℕ) (fits : available r + offset + length src ≤ r.size) where
    pub after_write_kept :
        (q : ℕ)
        → q < r.size
        → (q < available r + offset) ⊎ (available r + offset + length src ≤ q)
        → get_or
            (wrapped_vec r.vec r.size ((r.tail + offset) % r.size) src)
            ((r.head + q) % r.size)
            0
          ≡ get_or r.vec ((r.head + q) % r.size) 0
    after_write_kept q h out = rw (after_write offset src q fits h) (ground arith)

    pub after_write_fresh :
        (i : ℕ)
        → i < length src
        → get_or
            (wrapped_vec r.vec r.size ((r.tail + offset) % r.size) src)
            ((r.head + (available r + offset + i)) % r.size)
            0
          ≡ get_or src i 0
    after_write_fresh i h =
        let e : available r + offset + i - (available r + offset) ≡ i = omega arith in
        rw (after_write offset src (available r + offset + i) fits (omega arith))
          (ground (arith, e))
