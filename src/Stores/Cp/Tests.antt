-- ===== src/Stores/Cp/Tests.antt =====
-- Runs of framework/src/state/cp_mergeable.rs: batches of two updates, of which one is received.
use native.Mathlib.Decide.{ℕ_discrete}
use net_bricks.Prelude.{ℕ, ◌+◌, ◌≡◌, refl, List, [], ◌∷◌, arith}
use net_bricks.Stores.Maps.{find, put}
use net_bricks.Stores.Cp.{new_cp_mergeable_store, get, update, update_internal, recv}
use net_bricks.Stores.Cp.Merged.{Event, updating, receiving, play, Accounts, play-new}

abbrev some_events : List (Event ℕ ℕ)
some_events =
    updating 1 10 ∷ updating 1 5 ∷ updating 2 7 ∷ receiving ∷ updating 1 3 ∷ updating 2 1 ∷ []

some_events_run :
    get ℕ_discrete
      (λ a b. a + b)
      0
      (play ℕ_discrete (λ a b. a + b) 0 (new_cp_mergeable_store 2 8) some_events).control_plane
      1
    ≡ 15
unfolding play update recv update_internal find put ℕ_discrete
some_events_run = refl

play-new_example :
    Accounts ℕ_discrete
      (λ a b. a + b)
      0
      (play ℕ_discrete (λ a b. a + b) 0 (new_cp_mergeable_store 2 8) some_events)
      ((1, 10) ∷ (1, 5) ∷ (2, 7) ∷ (1, 3) ∷ (2, 1) ∷ [])
play-new_example = play-new ℕ_discrete (λ a b. a + b) 0 2 8 some_events (omega arith)
