-- ===== src/Scheduler/Embedded.antt =====
-- framework/src/scheduler/embedded_scheduler.rs: tasks are run by name, each after the tasks that it
-- depends on. What a task does is a function on the state `W` of the program. The recursion of
-- `exec_task` takes fuel, a bound of its depth.
mod Tests
pub mod Order
pub mod Exec
use net_bricks.Prelude.{ℕ, zero, suc, ◌+◌, List, [], ◌∷◌, ◌++◌, length, get_elem?, sub64}
use net_bricks.Prelude.Run.{Run, returns, out_of_fuel, bind, or_panic}
use net_bricks.Errors.{Result, ok}

infixl 5 ◌>>=◌
abbrev ◌>>=◌ {ℓ κ} : {A : Type ℓ} {B : Type κ} → Run A → (A → Run B) → Run B
m >>= f = bind m f

pub record Runnable (W : Type 0) : Type 0 where
  pub task : W → W
  pub dependencies : List ℕ

-- The lines that are printed, each a depth and a task.
unfoldable pub display_all : (ℕ → Run (List (ℕ × ℕ))) → List ℕ → Run (List (ℕ × ℕ))
display_all display [] = returns []
display_all display (dep_task ∷ rest) =
    display dep_task >>= λ lines. display_all display rest >>= λ more. returns (lines ++ more)

module _ {W : Type 0} where
  abbrev pub new : List (Runnable W)
  new = []

  -- The task and its dependencies make the new entry. The result is the task's handle.
  abbrev pub add_task : List (Runnable W) → (W → W) → List ℕ → List (Runnable W) × Result ℕ
  add_task tasks task dependencies =
      let tasks = tasks ++ record { task = task; dependencies = dependencies } ∷ [] in
      (tasks, ok (length tasks))

  -- The loop over the dependencies.
  unfoldable pub exec_all : (ℕ → W → Run W) → List ℕ → W → Run W
  exec_all exec [] w = returns w
  exec_all exec (dep_task ∷ rest) w = exec dep_task w >>= λ w. exec_all exec rest w

  unfoldable pub exec_task : ℕ → List (Runnable W) → ℕ → W → Run W
  exec_task zero tasks task_id w = out_of_fuel
  exec_task (suc fuel) tasks task_id w = or_panic (get_elem? tasks (sub64 task_id 1)) >>= λ r.
      exec_all (exec_task fuel tasks) r.dependencies w >>= λ w. returns (r.task w)

  unfoldable pub display_dependencies_internal : ℕ → List (Runnable W) → ℕ → ℕ → Run (List (ℕ × ℕ))
  display_dependencies_internal zero tasks depth task_id = out_of_fuel
  display_dependencies_internal (suc fuel) tasks depth task_id =
      or_panic (get_elem? tasks (sub64 task_id 1)) >>= λ r.
      display_all (display_dependencies_internal fuel tasks (depth + 1)) r.dependencies >>= λ lines.
      returns (lines ++ (depth, task_id) ∷ [])

  unfoldable pub display_dependencies : ℕ → List (Runnable W) → ℕ → Run (List (ℕ × ℕ))
  display_dependencies fuel tasks task_id = display_dependencies_internal fuel tasks 0 task_id
