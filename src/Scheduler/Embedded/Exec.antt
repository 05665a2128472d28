-- ===== src/Scheduler/Embedded/Exec.antt =====
-- What `exec_task` of framework/src/scheduler/embedded_scheduler.rs runs.
use mathlib.Core.List.{
  Subset, Mem, mem-cons_self, mem-append_left, mem-append_right, nil-subset, cons-subset,
  Subset-trans, map-append,
}
use mathlib.Core.Path.{subst}
use net_bricks.Prelude.{
  ℕ, zero, suc, ◌+◌, ◌-◌, ◌^◌, ◌≤◌, ◌<◌, ◌≡◌, refl, sym, ap, ap₂, ◌∙◌, List, [], ◌∷◌, ◌++◌, some,
  map, arith, length, length-append, get_elem?, split_at, sub64,
}
use net_bricks.Prelude.Run.{Run, returns}
use net_bricks.Errors.{ok}
use net_bricks.Scheduler.Embedded.{
  Runnable, add_task, exec_all, exec_task, display_all, display_dependencies_internal,
  display_dependencies,
}
use net_bricks.Scheduler.Embedded.Order.{
  IsBelow, IsLayered, dependencies_or, task_or, dependencies_of, run_of, perform, IsInOrder,
  perform-append, IsInOrder-more, IsInOrder-append, IsLayered-get,
}

module _ {W : Type 0} (tasks : List (Runnable W)) where
  -- The tasks of `t` are what a run comes to, and what is printed for it.
  record Runs (exec : W → Run W) (shown : ℕ → Run (List (ℕ × ℕ))) (goal : List ℕ) : Type 0 where
    order : List ℕ
    runs : (w : W) → exec w ≡ returns (perform tasks order w)
    ordered : IsInOrder tasks [] order
    reached : Subset goal order
    lines : ℕ → List (ℕ × ℕ)
    shows : (depth : ℕ) → shown depth ≡ returns (lines depth)
    same : (depth : ℕ) → map (λ l. l.1) (lines depth) ≡ order

  all :
      (exec : ℕ → W → Run W) (shown : ℕ → ℕ → Run (List (ℕ × ℕ))) (n : ℕ) (ids : List ℕ)
      → IsBelow n ids
      → ((d : ℕ) → 0 < d → d ≤ n → Runs (exec d) (λ depth. shown depth d) (d ∷ []))
      → Runs (exec_all exec ids) (λ depth. display_all (shown depth) ids) ids
  unfolding exec_all display_all perform IsInOrder
  all exec shown n [] b each = record {
    order = [];
    runs = λ w. refl;
    ordered = tt;
    reached = nil-subset [];
    lines = λ depth. [];
    shows = λ depth. refl;
    same = λ depth. refl;
  }
  all exec shown n (d ∷ ids) (pos, small, b) each =
      let one = each d pos small in
      let rest = all exec shown n ids b each in
      record {
        order = one.order ++ rest.order;
        runs = λ w.
            rw (one.runs w, rest.runs (perform tasks one.order w))
              (ap returns (sym (perform-append tasks one.order rest.order w)));
        ordered =
            IsInOrder-append tasks one.order rest.order [] one.ordered
              (IsInOrder-more tasks rest.order (nil-subset (one.order ++ [])) rest.ordered);
        reached = cons-subset.1 (
          mem-append_left rest.order (one.reached d mem-cons_self),
          λ e m. mem-append_right one.order (rest.reached e m),
        );
        lines = λ depth. one.lines depth ++ rest.lines depth;
        shows = λ depth. rw (one.shows depth, rest.shows depth) refl;
        same = λ depth.
            map-append (λ l. l.1) (one.lines depth) (rest.lines depth)
            ∙ ap₂ ◌++◌ (one.same depth) (rest.same depth);
      }

  module _ (few : length tasks < 2 ^ 64) (layered : IsLayered 0 tasks) where
    exec_task-Runs :
        (fuel task_id : ℕ)
        → 0 < task_id
        → task_id ≤ length tasks
        → task_id ≤ fuel
        → Runs
            (exec_task fuel tasks task_id)
            (λ depth. display_dependencies_internal fuel tasks depth task_id)
            (task_id ∷ [])
    unfolding exec_task display_dependencies_internal perform IsInOrder
    exec_task-Runs zero task_id pos known enough = absurd (omega arith)
    exec_task-Runs (suc fuel) task_id pos known enough =
        let place : sub64 task_id 1 ≡ task_id - 1 = omega arith in
        let (r, there, split) = split_at tasks (task_id - 1) (omega arith) in
        let found : get_elem? tasks (sub64 task_id 1) ≡ some r =
          ap (get_elem? tasks) place ∙ there in
        let start : 0 + (task_id - 1) ≡ task_id - 1 = omega arith in
        let below =
          subst (λ m. IsBelow m r.dependencies) start
            (IsLayered-get 0 (task_id - 1) tasks r layered there) in
        let deps =
          all (exec_task fuel tasks)
            (λ depth d. display_dependencies_internal fuel tasks (depth + 1) d) (task_id - 1)
            r.dependencies below
            λ d low high.
              let it = exec_task-Runs fuel d low (omega arith) (omega arith) in
              record {
                order = it.order;
                runs = it.runs;
                ordered = it.ordered;
                reached = it.reached;
                lines = λ depth. it.lines (depth + 1);
                shows = λ depth. it.shows (depth + 1);
                same = λ depth. it.same (depth + 1);
              } in
        let none_before = Subset-trans deps.reached (λ e m. mem-append_left [] m) in
        record {
          order = deps.order ++ task_id ∷ [];
          runs = λ w.
              rw (found, deps.runs w, perform-append tasks deps.order (task_id ∷ []) w)
                (ap (λ o. returns (task_or o (perform tasks deps.order w))) (sym found));
          ordered = IsInOrder-append tasks deps.order (task_id ∷ []) [] deps.ordered (
            subst (λ o. Subset (dependencies_or o) (deps.order ++ [])) (sym found) none_before,
            tt,
          );
          reached = λ e m. mem-append_right deps.order m;
          lines = λ depth. deps.lines depth ++ (depth, task_id) ∷ [];
          shows = λ depth. rw (found, deps.shows depth) refl;
          same = λ depth.
              map-append (λ l. l.1) (deps.lines depth) ((depth, task_id) ∷ [])
              ∙ ap (λ l. l ++ task_id ∷ []) (deps.same depth);
        }

    -- When each task depends only on tasks that were added before it, and there are fewer than
    -- 2 ^ 64: to run the task of a handle, with fuel for as many levels as the handle says, neither
    -- panics nor runs out of fuel. It comes to running the tasks of a list, one after the other,
    -- which has the task in it and every task only after all that it depends on; and
    -- `display_dependencies` prints the tasks in this order.
    pub exec_task_lem :
        (fuel task_id : ℕ) (w : W)
        → 0 < task_id
        → task_id ≤ length tasks
        → task_id ≤ fuel
        → (order : List ℕ) × (exec_task fuel tasks task_id w ≡ returns (perform tasks order w))
          × IsInOrder tasks [] order
          × Mem task_id order
          × (lines : List (ℕ × ℕ)) × (display_dependencies fuel tasks task_id ≡ returns lines)
          × (map (λ l. l.1) lines ≡ order)
    unfolding display_dependencies
    exec_task_lem fuel task_id w pos known enough =
        let it = exec_task-Runs fuel task_id pos known enough in
        (
          it.order,
          it.runs w,
          it.ordered,
          it.reached task_id mem-cons_self,
          it.lines 0,
          it.shows 0,
          it.same 0,
        )

get_elem?-last :
    {W : Type 0} (tasks : List (Runnable W)) (r : Runnable W)
    → get_elem? (tasks ++ r ∷ []) (length tasks) ≡ some r
get_elem?-last [] r = refl
get_elem?-last (x ∷ tasks) r = get_elem?-last tasks r

IsLayered-append :
    {W : Type 0} (n : ℕ) (tasks : List (Runnable W)) (r : Runnable W)
    → IsLayered n tasks
    → IsBelow (n + length tasks) r.dependencies
    → IsLayered n (tasks ++ r ∷ [])
IsLayered-append n [] r l b =
    let e : n + 0 ≡ n = omega arith in (subst (λ m. IsBelow m r.dependencies) e b, tt)
IsLayered-append n (x ∷ tasks) r l b =
    let e : n + suc (length tasks) ≡ suc n + length tasks = omega arith in
    (l.0, IsLayered-append (suc n) tasks r l.1 (subst (λ m. IsBelow m r.dependencies) e b))

-- A task is added that depends only on handles given out before: every task still depends only on
-- tasks added before it, and the new handle is positive, is in range and names the new task.
pub add_task-IsLayered :
    {W : Type 0} (tasks : List (Runnable W)) (task : W → W) (dependencies : List ℕ)
    → suc (length tasks) < 2 ^ 64
    → IsLayered 0 tasks
    → IsBelow (length tasks) dependencies
    → let (tasks', handle) = add_task tasks task dependencies in
      IsLayered 0 tasks'
      × (handle ≡ ok (length tasks'))
      × (0 < length tasks')
      × (run_of tasks' (length tasks') ≡ task)
      × (dependencies_of tasks' (length tasks') ≡ dependencies)
add_task-IsLayered {W} tasks task dependencies few l b =
    let r : Runnable W = record { task = task; dependencies = dependencies } in
    let longer : length (tasks ++ r ∷ []) ≡ length tasks + 1 = length-append tasks (r ∷ []) in
    let place : sub64 (length (tasks ++ r ∷ [])) 1 ≡ length tasks = omega (arith, longer) in
    let found : some r ≡ get_elem? (tasks ++ r ∷ []) (sub64 (length (tasks ++ r ∷ [])) 1) =
      sym (ap (get_elem? (tasks ++ r ∷ [])) place ∙ get_elem?-last tasks r) in
    let start : length tasks ≡ 0 + length tasks = omega arith in
    (
      IsLayered-append 0 tasks r l (subst (λ m. IsBelow m dependencies) start b),
      refl,
      omega (arith, longer),
      subst (λ o. task_or o ≡ task) found refl,
      subst (λ o. dependencies_or o ≡ dependencies) found refl,
    )
