-- ===== src/Operators/GroupBy/Tests.antt =====
-- A run of framework/src/operators/group_by.rs with two queues of four slots, the second of which
-- holds two packets already.
use net_bricks.Prelude.{ℕ, zero, suc, ◌+◌, ◌<◌, ◌≡◌, refl, List, [], ◌∷◌, arith, get_or, length}
use net_bricks.Prelude.Run.{returns}
use net_bricks.RingBuffer.{RingBuffer}
use net_bricks.RingBuffer.Window.{IsValid, contents, bytes_from}
use net_bricks.PacketBatch.{PacketBatch}
use net_bricks.Operators.GroupBy.{execute}
use net_bricks.Operators.GroupBy.Grouped.{queues, assign, group_of, Behind, execute_lem}

abbrev none_held : RingBuffer
none_held = record { head = 0; tail = 0; size = 4; mask = 3; vec = 0 ∷ 0 ∷ 0 ∷ 0 ∷ [] }

abbrev two_held : RingBuffer
two_held = record { head = 3; tail = 5; size = 4; mask = 3; vec = 12 ∷ 0 ∷ 0 ∷ 11 ∷ [] }

abbrev rings : List RingBuffer
rings = none_held ∷ two_held ∷ []

abbrev empty_batch : PacketBatch
empty_batch = record { slots = 0 ∷ 0 ∷ 0 ∷ []; len = 0; scratch = []; parent_tasks = [] }

-- The state is how many headers have been saved; packet 0 is in the first group.
abbrev group_fn : ℕ → ℕ → ℕ × ℕ
group_fn zero w = (w, 0)
group_fn (suc packet) w = (w, 1)

abbrev save : ℕ → ℕ → ℕ
save packet w = suc w

abbrev receive_three : PacketBatch → ℕ → ℕ × PacketBatch
receive_three b w = (w, record b { slots = 0 ∷ 7 ∷ 0 ∷ []; len = 3 })

abbrev stays : PacketBatch → ℕ → ℕ × PacketBatch
stays b w = (w, b)

abbrev assigned : List (ℕ × ℕ)
assigned = (0, 0) ∷ (1, 7) ∷ (0, 0) ∷ []

none_held-IsValid : IsValid none_held
none_held-IsValid = record {
  bits = 2;
  power = refl;
  small = omega arith;
  masked = refl;
  stored = refl;
  head_word = omega arith;
  tail_word = omega arith;
  room = omega arith;
}

two_held-IsValid : IsValid two_held
two_held-IsValid = record {
  bits = 2;
  power = refl;
  small = omega arith;
  masked = refl;
  stored = refl;
  head_word = omega arith;
  tail_word = omega arith;
  room = omega arith;
}

rings-IsValid : (i : ℕ) → i < length rings → IsValid (get_or rings i none_held)
rings-IsValid zero l = none_held-IsValid
rings-IsValid (suc zero) l = two_held-IsValid
rings-IsValid (suc (suc i)) l = none_held-IsValid

rings_room :
    (i : ℕ)
    → i < length rings
    → length (contents (get_or rings i none_held)) + length (group_of i assigned)
      < (get_or rings i none_held).size
unfolding contents bytes_from group_of
rings_room zero l = omega arith
rings_room (suc zero) l = omega arith
rings_room (suc (suc i)) l = omega arith

execute_lem_example :
    (rs' : List RingBuffer) × (execute group_fn save receive_three stays 1 5
        record { parent = empty_batch; producers = queues rings }
      ≡ returns (
        8,
        record { parent = record empty_batch { slots = 0 ∷ 7 ∷ 0 ∷ [] }; producers = queues rs' },
      ))
    × Behind none_held rings rs' assigned
unfolding assign
execute_lem_example =
    execute_lem group_fn save none_held receive_three stays 0 5 empty_batch rings
      (omega arith, (omega arith, (omega arith, tt)))
      (record { valid = rings-IsValid; room = rings_room })
