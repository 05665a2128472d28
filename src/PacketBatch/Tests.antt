-- ===== src/PacketBatch/Tests.antt =====
-- Runs of framework/src/operators/packet_batch.rs on a batch of four packets, with room for five.
use net_bricks.Prelude.{ℕ, ◌≡◌, refl, List, [], ◌∷◌, some, length, drop, arith}
use net_bricks.Prelude.Run.{returns}
use net_bricks.Errors.{Result, ok}
use net_bricks.PacketBatch.{PacketBatch, array, drop_packets_stable, send_q}
use net_bricks.PacketBatch.Drop.{IsValid, Ascending, kept, dropped, drop_packets_stable_lem}
use net_bricks.PacketBatch.Send.{send_q_lem}

abbrev four : PacketBatch
four = record { slots = 10 ∷ 20 ∷ 30 ∷ 40 ∷ 0 ∷ []; len = 4; scratch = []; parent_tasks = [] }

four-IsValid : IsValid four
four-IsValid = record { within = omega arith; addressable = omega arith; freed = refl }

-- Every packet can be freed, and one packet is sent at a time.
abbrev all_freed : List ℕ → ℕ
all_freed ptrs = 0

abbrev one_sent : List ℕ → Result ℕ
one_sent ptrs = ok 1

four-Ascending : Ascending 0 (0 ∷ 2 ∷ []) 4
unfolding Ascending
four-Ascending = (omega arith, omega arith, (omega arith, omega arith, omega arith))

drop_packets_stable_lem_example :
    (b' : PacketBatch) × (drop_packets_stable all_freed four (0 ∷ 2 ∷ [])
      ≡ returns (b', some (length (dropped 0 (0 ∷ 2 ∷ []) (array four)))))
    × IsValid b'
    × (array b' ≡ kept 0 (0 ∷ 2 ∷ []) (array four))
drop_packets_stable_lem_example =
    drop_packets_stable_lem all_freed four (0 ∷ 2 ∷ []) four-IsValid four-Ascending refl

send_q_lem_example :
    (b' : PacketBatch) × (send_q one_sent four ≡ returns (b', ok 1))
    × IsValid b'
    × (array b' ≡ drop 1 (array four))
send_q_lem_example = send_q_lem one_sent four 1 four-IsValid (omega arith) (omega arith) refl
