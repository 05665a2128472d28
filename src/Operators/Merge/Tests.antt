-- ===== src/Operators/Merge/Tests.antt =====
-- A run of framework/src/operators/merge_batch.rs with two parents.
use net_bricks.Prelude.{ℕ, suc, ◌+◌, ◌*◌, ◌≡◌, List, [], ◌∷◌, map, arith, length}
use net_bricks.Prelude.Run.{returns}
use net_bricks.Operators.Merge.{new}
use net_bricks.Operators.Merge.Turns.{execute_times, turns, execute_times_lem}

-- A parent counts what it did: 10 when it acts, 1 when it is done.
abbrev counts : List ℕ
counts = 100 ∷ 200 ∷ []

abbrev count_act : ℕ → ℕ
count_act n = n + 10

abbrev count_done : ℕ → ℕ
count_done n = suc n

execute_times_lem_example :
    execute_times count_act count_done (3 * length counts) (new counts)
    ≡ returns (new (map (turns count_act count_done 3) counts))
execute_times_lem_example = execute_times_lem count_act count_done 3 counts (omega arith)
