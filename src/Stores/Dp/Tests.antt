-- ===== src/Stores/Dp/Tests.antt =====
-- Runs of framework/src/state/dp_mergeable.rs: three updates of two flows.
use native.Mathlib.Decide.{ℕ_discrete}
use net_bricks.Prelude.{ℕ, ◌≡◌, List, [], ◌∷◌}
use net_bricks.Stores.Maps.{last_of}
use net_bricks.Stores.Dp.{with_cache_and_size, remove}
use net_bricks.Stores.Dp.Last.{update_all, remove-update_all}

abbrev three : List (ℕ × ℕ)
three = (1, 10) ∷ (2, 20) ∷ (1, 5) ∷ []

remove-update_all_example :
    let s = update_all ℕ_discrete 0 (with_cache_and_size 2 16) three in
    let (s', value) = remove ℕ_discrete 0 s 1 in (value ≡ 5) × ((remove ℕ_discrete 0 s' 1).1 ≡ 0)
unfolding last_of ℕ_discrete
remove-update_all_example = remove-update_all ℕ_discrete 0 2 16 three 1
