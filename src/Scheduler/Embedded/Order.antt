-- ===== src/Scheduler/Embedded/Order.antt =====
-- Orders in which the tasks of framework/src/scheduler/embedded_scheduler.rs may run.
use mathlib.Core.List.{
  Subset, mem-cons_self, mem-append_right, cons-subset, subset-cons_of_subset, Subset-refl,
  Subset-trans,
}
use mathlib.Core.Path.{subst}
use net_bricks.Prelude.{
  ℕ, zero, suc, ◌+◌, ◌≤◌, ◌<◌, ◌≡◌, refl, List, [], ◌∷◌, ◌++◌, Option, none, some, arith, get_elem?,
  sub64,
}
use net_bricks.Scheduler.Embedded.{Runnable}

-- Handles below `suc n`.
abbrev pub IsBelow : ℕ → List ℕ → Type 0
IsBelow n [] = Unit
IsBelow n (d ∷ ds) = (0 < d) × (d ≤ n) × IsBelow n ds

append_more : (xs : List ℕ) (x : ℕ) (done : List ℕ) → Subset (xs ++ done) (xs ++ x ∷ done)
append_more [] x done = subset-cons_of_subset x (Subset-refl done)
append_more (y ∷ ys) x done =
    cons-subset.1 (mem-cons_self, subset-cons_of_subset y (append_more ys x done))

module _ {W : Type 0} where
  -- From the `n`-th entry on, each task depends on tasks that were added before it.
  abbrev pub IsLayered : ℕ → List (Runnable W) → Type 0
  IsLayered n [] = Unit
  IsLayered n (r ∷ tasks) = IsBelow n r.dependencies × IsLayered (suc n) tasks

  abbrev pub dependencies_or : Option (Runnable W) → List ℕ
  dependencies_or none = []
  dependencies_or (some r) = r.dependencies

  abbrev pub task_or : Option (Runnable W) → W → W
  task_or none w = w
  task_or (some r) w = r.task w

  -- What the task of a handle depends on, and what it does.
  abbrev pub dependencies_of : List (Runnable W) → ℕ → List ℕ
  dependencies_of tasks task_id = dependencies_or (get_elem? tasks (sub64 task_id 1))

  abbrev pub run_of : List (Runnable W) → ℕ → W → W
  run_of tasks task_id = task_or (get_elem? tasks (sub64 task_id 1))

  -- The tasks of a list, run one after the other.
  unfoldable pub perform : List (Runnable W) → List ℕ → W → W
  perform tasks [] w = w
  perform tasks (task_id ∷ rest) w = perform tasks rest (run_of tasks task_id w)

  -- Every task of a list comes after those it depends on, or these are in `done`.
  unfoldable pub IsInOrder : List (Runnable W) → List ℕ → List ℕ → Type 0
  IsInOrder tasks done [] = Unit
  IsInOrder tasks done (task_id ∷ rest) =
      Subset (dependencies_of tasks task_id) done × IsInOrder tasks (task_id ∷ done) rest

  pub perform-append :
      (tasks : List (Runnable W)) (xs ys : List ℕ) (w : W)
      → perform tasks (xs ++ ys) w ≡ perform tasks ys (perform tasks xs w)
  unfolding perform
  perform-append tasks [] ys w = refl
  perform-append tasks (x ∷ xs) ys w = perform-append tasks xs ys (run_of tasks x w)

  pub IsInOrder-more :
      (tasks : List (Runnable W)) (xs : List ℕ) {done more : List ℕ}
      → Subset done more
      → IsInOrder tasks done xs
      → IsInOrder tasks more xs
  unfolding IsInOrder
  IsInOrder-more tasks [] h o = tt
  IsInOrder-more tasks (x ∷ xs) h o = (
    Subset-trans o.0 h,
    IsInOrder-more tasks xs (cons-subset.1 (mem-cons_self, subset-cons_of_subset x h)) o.1,
  )

  pub IsInOrder-append :
      (tasks : List (Runnable W)) (xs ys done : List ℕ)
      → IsInOrder tasks done xs
      → IsInOrder tasks (xs ++ done) ys
      → IsInOrder tasks done (xs ++ ys)
  unfolding IsInOrder
  IsInOrder-append tasks [] ys done o p = p
  IsInOrder-append tasks (x ∷ xs) ys done o p = (
    o.0,
    IsInOrder-append tasks xs ys (x ∷ done) o.1 (
        IsInOrder-more tasks ys
          (cons-subset.1 (mem-append_right xs mem-cons_self, append_more xs x done)) p),
  )

  -- An entry of a layered list.
  pub IsLayered-get :
      (n k : ℕ) (tasks : List (Runnable W)) (r : Runnable W)
      → IsLayered n tasks
      → get_elem? tasks k ≡ some r
      → IsBelow (n + k) r.dependencies
  IsLayered-get n k [] r l e = ground arith
  IsLayered-get n zero (x ∷ tasks) r l e =
      let sum : n ≡ n + 0 = omega arith in
      subst (λ o. IsBelow (n + 0) (dependencies_or o)) e
        (subst (λ m. IsBelow m x.dependencies) sum l.0)
  IsLayered-get n (suc k) (x ∷ tasks) r l e =
      let sum : suc n + k ≡ n + suc k = omega arith in
      subst (λ m. IsBelow m r.dependencies) sum (IsLayered-get (suc n) k tasks r l.1 e)
