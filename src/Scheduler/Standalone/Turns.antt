-- ===== src/Scheduler/Standalone/Turns.antt =====
-- One turn of a task in framework/src/scheduler/standalone_scheduler.rs.
use net_bricks.Prelude.{
  ℕ, zero, suc, ◌^◌, ◌<◌, ◌≡◌, refl, sym, ap, ◌∙◌, List, [], ◌∷◌, true, false, Option, none, some,
  map, arith, length, length-set, get_elem?, set, split_at, drop, add64, sub64, ◌==◌,
}
use net_bricks.Prelude.Run.{Run, returns, bind}
use net_bricks.Scheduler.Standalone.{
  Runnable, Config, next_poll, rest_polls, try_request, execute_internal,
}

module _ {W : Type 0} where
  abbrev pub tasks_of : Config W → List (W → W)
  tasks_of c = map (λ r. r.task) c.scheduler.run_q

  -- The tasks of a list, run in turn.
  unfoldable pub perform : List (W → W) → W → W
  perform [] w = w
  perform (task ∷ rest) w = perform rest (task w)

  -- Tasks `ts` have been run since `c`, and the next is task `next`.
  pub record Advanced (c c' : Config W) (ts : List (W → W)) (next : ℕ) : Type 0 where
    pub at : c'.scheduler.next_task ≡ next
    pub same_tasks : tasks_of c' ≡ tasks_of c
    pub same_length : length c'.scheduler.run_q ≡ length c.scheduler.run_q
    pub result : c'.world ≡ perform ts c.world
    pub looping : c'.scheduler.execute_loop ≡ c.scheduler.execute_loop
    pub stopping : c'.scheduler.shutdown ≡ c.scheduler.shutdown

  abbrev task_or : Runnable W → Option (Runnable W) → W → W
  task_or d none = d.task
  task_or d (some r) = r.task

  map-set :
      (run_q : List (Runnable W)) (i : ℕ) (r ran : Runnable W)
      → get_elem? run_q i ≡ some r
      → ran.task ≡ r.task
      → map (λ x. x.task) (set run_q i ran) ≡ map (λ x. x.task) run_q
  map-set [] i r ran there e = refl
  map-set (x ∷ xs) zero r ran there e =
      ap (λ t. t ∷ map (λ y. y.task) xs) (e ∙ sym (ap (task_or x) there))
  map-set (x ∷ xs) (suc i) r ran there e = ap (λ t. x.task ∷ t) (map-set xs i r ran there e)

  pub drop-map :
      (run_q : List (Runnable W)) (i : ℕ) (r : Runnable W)
      → get_elem? run_q i ≡ some r
      → drop i (map (λ x. x.task) run_q) ≡ r.task ∷ drop (suc i) (map (λ x. x.task) run_q)
  drop-map [] i r there = ground arith
  drop-map (x ∷ xs) zero r there = ap (λ o. task_or x o ∷ map (λ y. y.task) xs) there
  drop-map (x ∷ xs) (suc i) r there = drop-map xs i r there

module _ {W : Type 0} (clock : ℕ → ℕ) (c : Config W) (begin : ℕ) where
  abbrev here : ℕ
  here = c.scheduler.next_task

  -- after the task has run, before the next one is chosen
  abbrev after : Runnable W → ℕ → Config W
  after r next = record c {
    scheduler = record c.scheduler {
      run_q = set c.scheduler.run_q here (record r {
        cycles = add64 r.cycles (sub64 (clock c.reads) begin);
        last_run = clock c.reads;
      });
      next_task = next;
    };
    world = r.task c.world;
    reads = suc c.reads;
  }

  Advanced-after :
      (r : Runnable W) (next : ℕ)
      → get_elem? c.scheduler.run_q here ≡ some r
      → Advanced c (after r next) (r.task ∷ []) next
  unfolding perform
  Advanced-after r next there = record {
    at = refl;
    same_tasks = map-set c.scheduler.run_q here r _ there refl;
    same_length = length-set c.scheduler.run_q here _;
    result = refl;
    looping = refl;
    stopping = refl;
  }

  -- A turn that is not the last of a pass.
  pub turn :
      suc here < length c.scheduler.run_q
      → length c.scheduler.run_q < 2 ^ 64
      → (r : Runnable W) × (get_elem? c.scheduler.run_q here ≡ some r)
        × (c' : Config W) × Advanced c c' (r.task ∷ []) (suc here)
        × (c'.polls ≡ c.polls)
        × ((loop : Config W → Run (Config W))
            → execute_internal clock loop c begin ≡ returns (c', clock c.reads))
  unfolding execute_internal
  turn more few =
      let (r, there, split) = split_at c.scheduler.run_q here (omega arith) in
      let next : add64 here 1 ≡ suc here = omega arith in
      let test : (suc here == length c.scheduler.run_q) ≡ false = ground arith in
      (
        r,
        there,
        after r (suc here),
        Advanced-after r (suc here) there,
        refl,
        λ loop. rw (there, next, test) refl,
      )

  -- The last turn of a pass looks at the channel.
  pub last_turn :
      suc here ≡ length c.scheduler.run_q
      → length c.scheduler.run_q < 2 ^ 64
      → (r : Runnable W) × (get_elem? c.scheduler.run_q here ≡ some r)
        × (c' : Config W) × Advanced c c' (r.task ∷ []) 0
        × ((loop : Config W → Run (Config W))
            → execute_internal clock loop c begin
              ≡ bind
                  (try_request clock loop
                    (record c' { polls = rest_polls c.polls })
                    (next_poll c.polls))
                  λ d. returns (d, clock c.reads))
  unfolding execute_internal
  last_turn last few =
      let (r, there, split) = split_at c.scheduler.run_q here (omega arith) in
      let next : add64 here 1 ≡ suc here = omega arith in
      let test : (suc here == length c.scheduler.run_q) ≡ true = ground arith in
      (r, there, after r 0, Advanced-after r 0 there, λ loop. rw (there, next, test) refl)
