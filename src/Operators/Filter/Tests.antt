-- ===== src/Operators/Filter/Tests.antt =====
-- A run of framework/src/operators/filter_batch.rs on a batch of four packets.
use net_bricks.Prelude.{ℕ, ◌≡◌, refl, List, [], ◌∷◌, ◌==◌, arith}
use net_bricks.Prelude.Run.{returns}
use net_bricks.PacketBatch.{PacketBatch, array}
use net_bricks.PacketBatch.Drop.{IsValid}
use net_bricks.Operators.Filter.{FilterBatch, new, act}
use net_bricks.Operators.Filter.Passing.{passing, act_lem}

abbrev four : PacketBatch
four = record { slots = 10 ∷ 20 ∷ 30 ∷ 40 ∷ 0 ∷ []; len = 4; scratch = []; parent_tasks = [] }

-- The parent does nothing more, and only packet 20 passes.
abbrev only_20 : FilterBatch
only_20 = new four (λ packet. packet == 20)

abbrev unchanged : PacketBatch → PacketBatch
unchanged b = b

abbrev all_freed : List ℕ → ℕ
all_freed ptrs = 0

act_lem_example :
    (parent : PacketBatch) × (act unchanged all_freed only_20
      ≡ returns (record only_20 { parent = parent; remove = [] }))
    × (array parent ≡ passing only_20.filter (array four))
    × IsValid parent
act_lem_example =
    act_lem unchanged all_freed only_20 refl
      (record { within = omega arith; addressable = omega arith; freed = refl }) refl
