-- ===== src/Scheduler/Standalone.antt =====
-- framework/src/scheduler/standalone_scheduler.rs: tasks are run in turn, and after each pass over
-- them one command is taken from a channel. What a task does is a function on the state `W` of the
-- program. `clock` gives the readings of the time stamp counter, and `polls` what the channel gives
-- at each look, `none` for an error; both stand for code of other crates. The closure of a `Run`
-- command gets the scheduler without its channel. Loops take fuel.
mod Tests
pub mod Turns
pub mod Passes
use net_bricks.Prelude.{
  ℕ, zero, suc, ◌+◌, List, [], ◌∷◌, ◌++◌, Bool, true, false, Option, none, some, length, get_elem?,
  set, add64, sub64, ◌==◌, if◌then◌else◌,
}
use net_bricks.Prelude.Run.{Run, returns, out_of_fuel, bind, or_panic}
use net_bricks.Errors.{Result, ok}

pub record Runnable (W : Type 0) : Type 0 where
  pub task : W → W
  pub cycles : ℕ
  pub last_run : ℕ

pub record StandaloneScheduler (W : Type 0) : Type 0 where
  pub run_q : List (Runnable W)
  pub next_task : ℕ
  pub execute_loop : Bool
  pub shutdown : Bool

pub data SchedulerCommand (W : Type 0) : Type 0 where
  add : (W → W) → SchedulerCommand W
  run : (StandaloneScheduler W → W → StandaloneScheduler W × W) → SchedulerCommand W
  execute : SchedulerCommand W
  shutdown : SchedulerCommand W
  -- what the answer and the wait for the context do
  handshake : (W → Run W) → SchedulerCommand W

-- The scheduler within the program: `reads` counts the readings of the clock.
pub record Config (W : Type 0) : Type 0 where
  pub scheduler : StandaloneScheduler W
  pub world : W
  pub reads : ℕ
  pub polls : List (Option (SchedulerCommand W))

infixl 5 ◌>>=◌
abbrev ◌>>=◌ {ℓ κ} : {A : Type ℓ} {B : Type κ} → Run A → (A → Run B) → Run B
m >>= f = bind m f

abbrev pub next_poll :
    {W : Type 0} → List (Option (SchedulerCommand W)) → Option (SchedulerCommand W)
next_poll [] = none
next_poll (x ∷ rest) = x

abbrev pub rest_polls :
    {W : Type 0} → List (Option (SchedulerCommand W)) → List (Option (SchedulerCommand W))
rest_polls [] = []
rest_polls (x ∷ rest) = rest

abbrev pub new : {W : Type 0} → StandaloneScheduler W
new = record { run_q = []; next_task = 0; execute_loop = false; shutdown = true }

module _ {W : Type 0} (clock : ℕ → ℕ) where
  -- The runnable of a task that comes in now.
  abbrev pub from_task : (W → W) → ℕ → Runnable W
  from_task task reads = record { task = task; cycles = 0; last_run = clock reads }

  abbrev pub push : Config W → (W → W) → Config W
  push c task = record c {
    scheduler = record c.scheduler { run_q = c.scheduler.run_q ++ from_task task c.reads ∷ [] };
    reads = suc c.reads;
  }

  abbrev pub add_task : Config W → (W → W) → Config W × Result ℕ
  add_task c task = let c = push c task in (c, ok (length c.scheduler.run_q))

  -- `loop` is `execute_loop`.
  abbrev pub handle_request :
      (Config W → Run (Config W)) → Config W → SchedulerCommand W → Run (Config W)
  handle_request loop c (add ex) = returns (push c ex)
  handle_request loop c (run f) =
      let (scheduler, world) = f c.scheduler c.world in
      returns (record c { scheduler = scheduler; world = world })
  handle_request loop c execute = loop c
  handle_request loop c shutdown =
      returns
        (record c { scheduler = record c.scheduler { execute_loop = false; shutdown = true } })
  handle_request loop c (handshake answer) =
      answer c.world >>= λ world. returns (record c { world = world })

  -- A look at the channel without waiting.
  abbrev pub try_request :
      (Config W → Run (Config W)) → Config W → Option (SchedulerCommand W) → Run (Config W)
  try_request loop c none = returns c
  try_request loop c (some cmd) = handle_request loop c cmd

  unfoldable pub execute_internal : (Config W → Run (Config W)) → Config W → ℕ → Run (Config W × ℕ)
  execute_internal loop c begin =
      let s = c.scheduler in
      or_panic (get_elem? s.run_q s.next_task) >>= λ r.
      let end = clock c.reads in
      let ran = record r { cycles = add64 r.cycles (sub64 end begin); last_run = end } in
      let c = record c {
        scheduler = record s { run_q = set s.run_q s.next_task ran };
        world = r.task c.world;
        reads = suc c.reads;
      } in
      let next = add64 s.next_task 1 in
      let wrapped = record c {
        scheduler = record c.scheduler { next_task = 0 };
        polls = rest_polls c.polls;
      } in
      let polled = try_request loop wrapped (next_poll c.polls) in
      let stepped = record c { scheduler = record c.scheduler { next_task = next } } in
      (if next == length s.run_q then polled else returns stepped) >>= λ c. returns (c, end)

  -- `execute_loop` up to its loop, which is `rounds`.
  abbrev pub start_loop : (Config W → ℕ → Run (Config W)) → Config W → Run (Config W)
  start_loop rounds c =
      let started = record c {
        scheduler = record c.scheduler { execute_loop = true };
        reads = suc c.reads;
      } in
      if length c.scheduler.run_q == 0 then returns started else rounds started (clock c.reads)

  unfoldable pub loop_rounds : ℕ → Config W → ℕ → Run (Config W)
  loop_rounds zero c begin_time = out_of_fuel
  loop_rounds (suc fuel) c begin_time =
      let round = execute_internal (start_loop (loop_rounds fuel)) c begin_time >>= λ r.
      loop_rounds fuel r.0 r.1 in
      if c.scheduler.execute_loop then round else returns c

  unfoldable pub execute_loop : ℕ → Config W → Run (Config W)
  execute_loop fuel c = start_loop (loop_rounds fuel) c

  unfoldable pub execute_one : ℕ → Config W → Run (Config W)
  execute_one fuel c =
      let one =
        execute_internal (execute_loop fuel) (record c { reads = suc c.reads }) (clock c.reads)
        >>= λ r. returns r.0 in
      if length c.scheduler.run_q == 0 then returns c else one

  unfoldable pub request_rounds : ℕ → Config W → Run (Config W)
  request_rounds zero c = out_of_fuel
  request_rounds (suc fuel) c = elim c.scheduler.shutdown [
    | true ↦ returns c
    | false ↦ elim (next_poll c.polls) [
      | none ↦ returns (record c { polls = rest_polls c.polls })
      | some cmd ↦
          handle_request (execute_loop fuel) (record c { polls = rest_polls c.polls }) cmd >>= λ c.
          request_rounds fuel c
    ]
  ]

  unfoldable pub handle_requests : ℕ → Config W → Run (Config W)
  handle_requests fuel c =
      request_rounds fuel (record c { scheduler = record c.scheduler { shutdown = false } })
