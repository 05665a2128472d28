-- ===== src/Scheduler/Standalone/Passes.antt =====
-- Whole passes of the loop of framework/src/scheduler/standalone_scheduler.rs over the tasks.
use mathlib.Core.Path.{subst}
use native.Mathlib.Nat.{suc-mul}
use net_bricks.Prelude.{
  ℕ, zero, suc, ◌+◌, ◌-◌, ◌*◌, ◌^◌, ◌≤◌, ◌<◌, ◌≡◌, refl, sym, ap, ap₂, ◌∙◌, List, [], ◌∷◌, ◌++◌,
  true, false, Option, none, some, arith, length, length-map, replicate, drop, drop_all, ◌==◌,
  if◌then◌else◌,
}
use net_bricks.Prelude.Run.{Run, returns, panics, out_of_fuel, bind}
use net_bricks.Scheduler.Standalone.{
  SchedulerCommand, shutdown, Config, next_poll, rest_polls, try_request, execute_internal,
  start_loop, loop_rounds, execute_loop,
}
use net_bricks.Scheduler.Standalone.Turns.{tasks_of, perform, Advanced, drop-map, turn, last_turn}

-- `n` more rounds of fuel.
plus : ℕ → ℕ → ℕ
plus zero fuel = fuel
plus (suc n) fuel = suc (plus n fuel)

plus-sub : (n fuel : ℕ) → n ≤ fuel → plus n (fuel - n) ≡ fuel
unfolding plus
plus-sub zero fuel h = omega arith
plus-sub (suc n) zero h = elim h [ ]
plus-sub (suc n) (suc fuel) h =
    let e : suc fuel - suc n ≡ fuel - n = omega arith in
    ap suc (ap (plus n) e ∙ plus-sub n fuel (omega arith))

bind_assoc :
    {A B C : Type 0} (m : Run A) (f : A → Run B) (g : B → Run C)
    → bind (bind m f) g ≡ bind m λ a. bind (f a) g
bind_assoc (returns a) f g = refl
bind_assoc panics f g = refl
bind_assoc out_of_fuel f g = refl

module _ {W : Type 0} (clock : ℕ → ℕ) where
  Advanced-cons :
      {a b c : Config W} {task : W → W} {ts : List (W → W)} {n m : ℕ}
      → Advanced a b (task ∷ []) n
      → Advanced b c ts m
      → Advanced a c (task ∷ ts) m
  unfolding perform
  Advanced-cons {ts} x y = record {
    at = y.at;
    same_tasks = y.same_tasks ∙ x.same_tasks;
    same_length = y.same_length ∙ x.same_length;
    result = y.result ∙ ap (perform ts) x.result;
    looping = y.looping ∙ x.looping;
    stopping = y.stopping ∙ x.stopping;
  }

  abbrev continue : ℕ → Config W × ℕ → Run (Config W)
  continue fuel r = loop_rounds clock fuel r.0 r.1

  loop_round :
      (fuel : ℕ) (c : Config W) (begin : ℕ)
      → c.scheduler.execute_loop ≡ true
      → loop_rounds clock (suc fuel) c begin
        ≡ bind
            (execute_internal clock (start_loop clock (loop_rounds clock fuel)) c begin)
            (continue fuel)
  unfolding loop_rounds
  loop_round fuel c begin looping =
      ap
        (λ b.
          if b
          then bind (execute_internal clock (start_loop clock (loop_rounds clock fuel)) c begin)
              (continue fuel)
          else returns c)
        looping

  -- The look at the channel after a pass, and the rounds that follow it.
  abbrev go_on : ℕ → Config W → List (Option (SchedulerCommand W)) → ℕ → Run (Config W)
  go_on fuel c polls begin =
      bind
        (try_request clock (start_loop clock (loop_rounds clock fuel))
          (record c { polls = rest_polls polls }) (next_poll polls))
        λ d. loop_rounds clock fuel d begin

  pass :
      (k : ℕ) (c : Config W) (begin : ℕ)
      → suc k + c.scheduler.next_task ≡ length c.scheduler.run_q
      → length c.scheduler.run_q < 2 ^ 64
      → c.scheduler.execute_loop ≡ true
      → (c' : Config W) × (begin' : ℕ) × Advanced c c' (drop c.scheduler.next_task (tasks_of c)) 0
        × ((fuel : ℕ)
            → loop_rounds clock (plus (suc k) fuel) c begin ≡ go_on fuel c' c.polls begin')
  unfolding plus
  pass zero c begin at few looping =
      let (r, there, c', moved, run) = last_turn clock c begin (omega arith) few in
      let rest : drop (suc c.scheduler.next_task) (tasks_of c) ≡ [] =
        drop_all (suc c.scheduler.next_task) (tasks_of c)
          (omega (arith, length-map (λ x. x.task) c.scheduler.run_q)) in
      let one =
        drop-map c.scheduler.run_q c.scheduler.next_task r there ∙ ap (λ t. r.task ∷ t) rest in
      (
        c',
        clock c.reads,
        subst (λ ts. Advanced c c' ts 0) (sym one) moved,
        λ fuel.
            let loop = start_loop clock (loop_rounds clock fuel) in
            loop_round fuel c begin looping
            ∙ ap (λ m. bind m (continue fuel)) (run loop)
            ∙ bind_assoc
                (try_request clock loop (record c' { polls = rest_polls c.polls })
                  (next_poll c.polls))
                (λ d. returns (d, clock c.reads)) (continue fuel),
      )
  pass (suc k) c begin at few looping =
      let (r, there, d, moved, polls, run) = turn clock c begin (omega arith) few in
      let (c', begin', rest, go) =
        pass k d (clock c.reads) (omega (arith, moved.at, moved.same_length))
          (omega (arith, moved.same_length)) (moved.looping ∙ looping) in
      let ts : drop d.scheduler.next_task (tasks_of d)
          ≡ drop (suc c.scheduler.next_task) (tasks_of c) =
        ap₂ drop moved.at moved.same_tasks in
      let all = drop-map c.scheduler.run_q c.scheduler.next_task r there in
      (
        c',
        begin',
        subst (λ ts. Advanced c c' ts 0) (sym all)
            (Advanced-cons moved (subst (λ ts. Advanced d c' ts 0) ts rest)),
        λ fuel.
            loop_round (plus (suc k) fuel) c begin looping
            ∙ ap (λ m. bind m (continue (plus (suc k) fuel)))
                (run (start_loop clock (loop_rounds clock (plus (suc k) fuel))))
            ∙ go fuel
            ∙ ap (λ polls. go_on fuel c' polls begin') polls,
      )

  -- The channel gives nothing after `k` passes, then the command to shut down.
  abbrev pub shut_down_after :
      ℕ → List (Option (SchedulerCommand W)) → List (Option (SchedulerCommand W))
  shut_down_after k later = replicate k none ++ some shutdown ∷ later

  -- `k` passes and one more over the tasks.
  unfoldable pub passes : ℕ → List (W → W) → W → W
  passes zero tasks w = perform tasks w
  passes (suc k) tasks w = passes k tasks (perform tasks w)

  pub record Stopped (c c' : Config W) (k : ℕ) (later : List (Option (SchedulerCommand W)))
      : Type 0 where
    pub result : c'.world ≡ passes k (tasks_of c) c.world
    pub same_tasks : tasks_of c' ≡ tasks_of c
    pub at : c'.scheduler.next_task ≡ 0
    pub stops : c'.scheduler.execute_loop ≡ false
    pub shuts_down : c'.scheduler.shutdown ≡ true
    pub polls : c'.polls ≡ later

  whole_pass :
      (c : Config W) (begin : ℕ)
      → 0 < length c.scheduler.run_q
      → length c.scheduler.run_q < 2 ^ 64
      → c.scheduler.next_task ≡ 0
      → c.scheduler.execute_loop ≡ true
      → (d : Config W) × (begin' : ℕ) × Advanced c d (tasks_of c) 0
        × ((fuel : ℕ)
            → length c.scheduler.run_q ≤ fuel
            → loop_rounds clock fuel c begin
              ≡ go_on (fuel - length c.scheduler.run_q) d c.polls begin')
  whole_pass c begin some_task few at looping =
      let n : ℕ = length c.scheduler.run_q in
      let count : suc (n - 1) + c.scheduler.next_task ≡ n = omega arith in
      let whole : suc (n - 1) ≡ n = omega arith in
      let (d, begin', moved, go) = pass (n - 1) c begin count few looping in
      (
        d,
        begin',
        subst (λ i. Advanced c d (drop i (tasks_of c)) 0) at moved,
        λ fuel enough.
            ap (λ f. loop_rounds clock f c begin)
              (sym (ap (λ m. plus m (fuel - n)) whole ∙ plus-sub n fuel enough))
            ∙ go (fuel - n),
      )

  rounds_until_shutdown :
      (k fuel : ℕ) (c : Config W) (begin : ℕ) (later : List (Option (SchedulerCommand W)))
      → 0 < length c.scheduler.run_q
      → length c.scheduler.run_q < 2 ^ 64
      → c.scheduler.next_task ≡ 0
      → c.scheduler.execute_loop ≡ true
      → c.polls ≡ shut_down_after k later
      → suc k * length c.scheduler.run_q < fuel
      → (c' : Config W) × (loop_rounds clock fuel c begin ≡ returns c') × Stopped c c' k later
  unfolding passes loop_rounds
  rounds_until_shutdown zero fuel c begin later some_task few at looping polls enough =
      let n : ℕ = length c.scheduler.run_q in
      let (d, begin', moved, go) = whole_pass c begin some_task few at looping in
      let left : fuel - n ≡ suc (fuel - n - 1) = omega arith in
      (
        record d {
          scheduler = record d.scheduler { execute_loop = false; shutdown = true };
          polls = later;
        },
        go fuel (omega arith)
            ∙ ap (λ p. go_on (fuel - n) d p begin') polls
            ∙ ap (λ f. go_on f d (some shutdown ∷ later) begin') left,
        record {
          result = moved.result;
          same_tasks = moved.same_tasks;
          at = moved.at;
          stops = refl;
          shuts_down = refl;
          polls = refl;
        },
      )
  rounds_until_shutdown (suc k) fuel c begin later some_task few at looping polls enough =
      let n : ℕ = length c.scheduler.run_q in
      let (d, begin', moved, go) = whole_pass c begin some_task few at looping in
      let next : Config W = record d { polls = shut_down_after k later } in
      let times = ap (λ m. suc k * m) moved.same_length in
      let more = suc-mul (suc k) n in
      let (c', runs, stopped) =
        rounds_until_shutdown k (fuel - n) next begin' later (omega (arith, moved.same_length))
          (omega (arith, moved.same_length)) moved.at (moved.looping ∙ looping) refl
          (omega (arith, times, more)) in
      (
        c',
        go fuel (omega (arith, more)) ∙ ap (λ p. go_on (fuel - n) d p begin') polls ∙ runs,
        record {
          result = stopped.result ∙ ap₂ (λ ts w. passes k ts w) moved.same_tasks moved.result;
          same_tasks = stopped.same_tasks ∙ moved.same_tasks;
          at = stopped.at;
          stops = stopped.stops;
          shuts_down = stopped.shuts_down;
          polls = stopped.polls;
        },
      )

  -- A scheduler with tasks, fewer than 2 ^ 64, that is to start with the first, and a channel that
  -- gives the command to shut down after nothing has come at the end of `k` passes: with more fuel
  -- than `k + 1` passes have turns, the loop returns. It has run every task once in each of
  -- `k + 1` passes, always in the order of the queue, and the command has stopped it; the tasks are
  -- the same and the first is next.
  pub execute_loop_lem :
      (k fuel : ℕ) (c : Config W) (later : List (Option (SchedulerCommand W)))
      → 0 < length c.scheduler.run_q
      → length c.scheduler.run_q < 2 ^ 64
      → c.scheduler.next_task ≡ 0
      → c.polls ≡ shut_down_after k later
      → suc k * length c.scheduler.run_q < fuel
      → (c' : Config W) × (execute_loop clock fuel c ≡ returns c') × Stopped c c' k later
  unfolding execute_loop
  execute_loop_lem k fuel c later some_task few at polls enough =
      let started : Config W = record c {
        scheduler = record c.scheduler { execute_loop = true };
        reads = suc c.reads;
      } in
      let test : (length c.scheduler.run_q == 0) ≡ false = ground arith in
      let (c', runs, stopped) =
        rounds_until_shutdown k fuel started (clock c.reads) later some_task few at refl polls
          enough in
      (
        c',
        ap (λ b. if b then returns started else loop_rounds clock fuel started (clock c.reads)) test
            ∙ runs,
        record {
          result = stopped.result;
          same_tasks = stopped.same_tasks;
          at = stopped.at;
          stops = stopped.stops;
          shuts_down = stopped.shuts_down;
          polls = stopped.polls;
        },
      )
