-- ===== src/RingBuffer/Tests.antt =====
-- Runs of framework/src/state/ring_buffer.rs: a ring of eight bytes that holds three, over its end.
use net_bricks.Prelude.{ℕ, ◌≡◌, refl, List, [], ◌∷◌, ◌++◌, some, take, drop, arith}
use net_bricks.RingBuffer.{
  RingBuffer, write_at_tail, write_at_offset_from_tail, seek_tail, read_from_head_with_increment,
}
use net_bricks.RingBuffer.Window.{IsValid, contents, bytes_from}
use net_bricks.RingBuffer.Append.{write_at_tail_lem}
use net_bricks.RingBuffer.Read.{read_from_head_with_increment_lem}
use net_bricks.RingBuffer.Gap.{fill_gap}

abbrev held : RingBuffer
held = record { head = 6; tail = 9; size = 8; mask = 7; vec = 3 ∷ 0 ∷ 0 ∷ 0 ∷ 0 ∷ 0 ∷ 1 ∷ 2 ∷ [] }

held-IsValid : IsValid held
held-IsValid = record {
  bits = 3;
  power = refl;
  small = omega arith;
  masked = refl;
  stored = refl;
  head_word = omega arith;
  tail_word = omega arith;
  room = omega arith;
}

held-contents : contents held ≡ 1 ∷ 2 ∷ 3 ∷ []
unfolding contents bytes_from
held-contents = refl

abbrev five : List ℕ
five = 4 ∷ 5 ∷ 6 ∷ 7 ∷ 8 ∷ []

-- Five bytes are written where four fit.
write_at_tail_lem_example :
    (r' : RingBuffer) × (write_at_tail held five ≡ some (r', 4))
    × (r'.size ≡ held.size)
    × (contents r' ≡ contents held ++ take 4 five)
    × IsValid r'
write_at_tail_lem_example = write_at_tail_lem held-IsValid five

read_from_head_with_increment_lem_example :
    (r' : RingBuffer) × (read_from_head_with_increment held five 2
      ≡ some (r', take 3 (contents held) ++ drop 3 five, 3))
    × (r'.size ≡ held.size)
    × (contents r' ≡ drop 2 (contents held))
    × IsValid r'
read_from_head_with_increment_lem_example = read_from_head_with_increment_lem held-IsValid five 2

fill_gap_example :
    (early : RingBuffer) × (filled : RingBuffer) × (write_at_offset_from_tail held 2 (6 ∷ 7 ∷ [])
      ≡ some (early, 2))
    × (write_at_tail early (4 ∷ 5 ∷ []) ≡ some (filled, 2))
    × (contents (seek_tail filled 2) ≡ contents held ++ ((4 ∷ 5 ∷ []) ++ (6 ∷ 7 ∷ [])))
    × IsValid (seek_tail filled 2)
fill_gap_example = fill_gap (4 ∷ 5 ∷ []) (6 ∷ 7 ∷ []) held-IsValid (omega arith)
