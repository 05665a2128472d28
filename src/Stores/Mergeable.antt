-- ===== src/Stores/Mergeable.antt =====
-- framework/src/state/mergeable.rs: stores of the data path that each merge their updates into a map
-- behind a lock, and a store of the control plane that copies these maps. Whether a lock that is
-- only tried is taken, and whether one is poisoned, is an argument.
mod Tests
pub mod Growth
pub mod Synced
use net_bricks.Prelude.{
  ℕ, zero, suc, ◌*◌, ◌%◌, ◌^◌, ◌≡◌, List, [], ◌∷◌, ◌++◌, Bool, true, false, not, Option, none, some,
  max, length, leb, get_or, set, ◌==◌, if◌then◌else◌,
}
use net_bricks.Prelude.Run.{Run, returns, panics}
use net_bricks.Stores.Maps.{find, put_all, erase}

abbrev pub vec_size : ℕ
vec_size = 2 ^ 10

abbrev pub cache_size : ℕ
cache_size = 2 ^ 10

abbrev pub max_cache_size : ℕ
max_cache_size = 2 ^ 20

-- `hashmaps` are the maps behind the locks.
pub record MergeableStoreCp (K T : Type 0) : Type 0 where
  pub flow_counters : List (K × T)
  pub hashmaps : List (List (K × T))

-- `flow_counters` is the place of the store's map among those of the control plane.
pub record MergeableStoreDp (K T : Type 0) : Type 0 where
  pub flow_counters : ℕ
  pub cache : List (K × T)
  pub base_cache_size : ℕ
  pub cache_size : ℕ
  pub len : ℕ

abbrev pub value_or : {T : Type 0} → T → Option T → T
value_or default none = default
value_or default (some v) = v

module _ {K T : Type 0} where
  abbrev pub new : MergeableStoreCp K T
  new = record { flow_counters = []; hashmaps = [] }

  -- The second number is the capacity of the map at the start.
  abbrev pub dp_store_with_cache_and_size :
      MergeableStoreCp K T → ℕ → ℕ → MergeableStoreCp K T × MergeableStoreDp K T
  dp_store_with_cache_and_size cp cache size = (
    record cp { hashmaps = cp.hashmaps ++ [] ∷ [] },
    record {
      flow_counters = length cp.hashmaps;
      cache = [];
      cache_size = cache;
      base_cache_size = cache;
      len = 0;
    },
  )

  abbrev pub dp_store : MergeableStoreCp K T → MergeableStoreCp K T × MergeableStoreDp K T
  dp_store cp = dp_store_with_cache_and_size cp cache_size vec_size

  -- The copies of the maps whose locks are free to read; the answers of `try_read` come in order.
  unfoldable pub copies : List Bool → List (List (K × T)) → List (K × T)
  copies [] maps = []
  copies (free ∷ locks) [] = []
  copies (free ∷ locks) (m ∷ maps) =
      let rest = copies locks maps in if free then m ++ rest else rest

  abbrev pub len : MergeableStoreDp K T → ℕ
  len d = d.len

  abbrev pub is_empty : MergeableStoreDp K T → Bool
  is_empty d = not (d.len == 0)

module _ {K T : Type 0} (same : (a b : K) → Dec (a ≡ b)) (default : T) where
  abbrev pub sync : List Bool → MergeableStoreCp K T → MergeableStoreCp K T
  sync locks cp = record cp { flow_counters = put_all same (copies locks cp.hashmaps) [] }

  abbrev pub get : MergeableStoreCp K T → K → T
  get cp flow = value_or default (find same flow cp.flow_counters)

  -- What `merge_cache` and `remove` do with the lock held.
  abbrev pub merge_held :
      List (List (K × T)) → MergeableStoreDp K T → List (List (K × T)) × MergeableStoreDp K T
  merge_held maps d =
      let g = put_all same d.cache (get_or maps d.flow_counters []) in
      (
        set maps d.flow_counters g,
        record d { cache = []; cache_size = d.base_cache_size; len = length g },
      )

  unfoldable pub merge_cache :
      Bool → List (List (K × T)) → MergeableStoreDp K T → List (List (K × T)) × MergeableStoreDp K T
  merge_cache true maps d = merge_held maps d
  merge_cache false maps d =
      (maps, record d { cache_size = max ((d.cache_size * 2) % 2 ^ 64) max_cache_size })

  unfoldable pub update :
      Bool
      → List (List (K × T))
      → MergeableStoreDp K T
      → K
      → T
      → List (List (K × T)) × MergeableStoreDp K T
  update free maps d flow inc =
      let d = record d { cache = d.cache ++ (flow, inc) ∷ [] } in
      if leb d.cache_size (length d.cache) then merge_cache free maps d else (maps, d)

  unfoldable pub remove :
      Bool
      → List (List (K × T))
      → MergeableStoreDp K T
      → K
      → Run (List (List (K × T)) × MergeableStoreDp K T × T)
  remove true maps d flow = panics
  remove false maps d flow =
      let (maps, d) = merge_held maps d in
      let g = get_or maps d.flow_counters [] in
      returns (set maps d.flow_counters (erase same flow g), d, value_or default (find same flow g))
