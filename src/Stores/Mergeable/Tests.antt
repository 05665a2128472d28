-- ===== src/Stores/Mergeable/Tests.antt =====
-- Runs of framework/src/state/mergeable.rs: three updates of two flows, one of which finds the lock
-- taken.
use native.Mathlib.Decide.{ℕ_discrete}
use net_bricks.Prelude.{ℕ, ◌<◌, ◌≡◌, List, [], ◌∷◌, true, false, length, get_or, none}
use net_bricks.Prelude.Run.{returns}
use net_bricks.Stores.Maps.{last_of}
use net_bricks.Stores.Mergeable.{
  MergeableStoreCp, MergeableStoreDp, value_or, new, dp_store_with_cache_and_size, sync, get,
  merge_cache, remove,
}
use net_bricks.Stores.Mergeable.Synced.{Try, try_all, updates_of, remove-try_all, get-sync}

abbrev three : List (Try ℕ ℕ)
three = (true, 1, 10) ∷ (false, 2, 20) ∷ (true, 1, 5) ∷ []

-- A control plane that already has a store.
abbrev one_store : MergeableStoreCp ℕ ℕ
one_store = record { flow_counters = []; hashmaps = ((7, 70) ∷ []) ∷ [] }

remove-try_all_example :
    let made = dp_store_with_cache_and_size one_store 2 16 in
    let r = try_all ℕ_discrete 0 made.0.hashmaps made.1 three in
    (maps : List (List (ℕ × ℕ))) × (d : MergeableStoreDp ℕ ℕ) × (remove ℕ_discrete 0 false r.0 r.1 1
      ≡ returns (maps, d, value_or 0 (last_of ℕ_discrete 1 (updates_of ℕ_discrete 0 three) none)))
    × ((j : ℕ) → j < length one_store.hashmaps → get_or maps j [] ≡ get_or one_store.hashmaps j [])
remove-try_all_example = remove-try_all ℕ_discrete 0 one_store 2 16 three 1

get-sync_example :
    let (cp, d) = dp_store_with_cache_and_size new 2 16 in
    let r = try_all ℕ_discrete 0 cp.hashmaps d three in
    let merged = merge_cache ℕ_discrete 0 true r.0 r.1 in
    let cp = record cp { flow_counters = (1, 3) ∷ (9, 4) ∷ []; hashmaps = merged.0 } in
    (get ℕ_discrete 0 (sync ℕ_discrete 0 (true ∷ []) cp) 1
      ≡ value_or 0 (last_of ℕ_discrete 1 (updates_of ℕ_discrete 0 three) none))
    × (get ℕ_discrete 0 (sync ℕ_discrete 0 (false ∷ []) cp) 1 ≡ 0)
get-sync_example = get-sync ℕ_discrete 0 ((1, 3) ∷ (9, 4) ∷ []) 2 16 three 1

-- A cache of two entries with one in it.
abbrev half : MergeableStoreDp ℕ ℕ
half = record {
  flow_counters = 0;
  cache = (1, 10) ∷ [];
  base_cache_size = 2;
  cache_size = 2;
  len = 0;
}
