-- ===== src/Scheduler/Embedded/Tests.antt =====
-- Runs of framework/src/scheduler/embedded_scheduler.rs: three tasks that note their handles.
use mathlib.Core.List.{Mem}
use net_bricks.Prelude.{ℕ, ◌≡◌, refl, List, [], ◌∷◌, ◌++◌, map, arith}
use net_bricks.Prelude.Run.{returns}
use net_bricks.Scheduler.Embedded.{Runnable, exec_task, exec_all, display_dependencies}
use net_bricks.Scheduler.Embedded.Order.{IsLayered, perform, IsInOrder}
use net_bricks.Scheduler.Embedded.Exec.{exec_task_lem}

abbrev note : ℕ → List ℕ → List ℕ
note n w = w ++ n ∷ []

abbrev three : List (Runnable (List ℕ))
three =
    record { task = note 1; dependencies = [] }
    ∷ record { task = note 2; dependencies = 1 ∷ [] }
    ∷ record { task = note 3; dependencies = 2 ∷ 1 ∷ [] }
    ∷ []

three-IsLayered : IsLayered 0 three
three-IsLayered = (
  tt,
  (
    (omega arith, omega arith, tt),
    ((omega arith, omega arith, (omega arith, omega arith, tt)), tt),
  ),
)

-- Task 1 is run once for task 2 and once more for task 3.
three_run : exec_task 3 three 3 [] ≡ returns (1 ∷ 2 ∷ 1 ∷ 3 ∷ [])
unfolding exec_task exec_all
three_run = refl

exec_task_lem_example :
    (order : List ℕ) × (exec_task 3 three 3 [] ≡ returns (perform three order []))
    × IsInOrder three [] order
    × Mem 3 order
    × (lines : List (ℕ × ℕ)) × (display_dependencies 3 three 3 ≡ returns lines)
    × (map (λ l. l.1) lines ≡ order)
exec_task_lem_example =
    exec_task_lem three (omega arith) three-IsLayered 3 3 [] (omega arith) (omega arith)
      (omega arith)
