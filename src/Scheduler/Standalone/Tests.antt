-- ===== src/Scheduler/Standalone/Tests.antt =====
-- Runs of framework/src/scheduler/standalone_scheduler.rs: two tasks that note their names.
use net_bricks.Prelude.{ℕ, ◌*◌, ◌≡◌, refl, List, [], ◌∷◌, ◌++◌, none, some, false, arith}
use net_bricks.Prelude.Run.{returns}
use net_bricks.Scheduler.Standalone.{shutdown, Config, execute_loop}
use net_bricks.Scheduler.Standalone.Passes.{Stopped, execute_loop_lem}

abbrev note : ℕ → List ℕ → List ℕ
note n w = w ++ n ∷ []

abbrev two_tasks : Config (List ℕ)
two_tasks = record {
  scheduler = record {
    run_q =
        record { task = note 1; cycles = 0; last_run = 0 }
        ∷ record { task = note 2; cycles = 0; last_run = 0 }
        ∷ [];
    next_task = 0;
    execute_loop = false;
    shutdown = false;
  };
  world = [];
  reads = 0;
  polls = none ∷ some shutdown ∷ none ∷ [];
}

abbrev ticks : ℕ → ℕ
ticks n = 10 * n

execute_loop_lem_example :
    (c : Config (List ℕ)) × (execute_loop ticks 5 two_tasks ≡ returns c)
    × Stopped ticks two_tasks c 1 (none ∷ [])
execute_loop_lem_example =
    execute_loop_lem ticks 1 5 two_tasks (none ∷ []) (omega arith) (omega arith) refl refl
      (omega arith)
