-- ===== src/Stores/Dp.antt =====
-- framework/src/state/dp_mergeable.rs: a store whose updates wait in a cache.
mod Tests
pub mod Last
use net_bricks.Prelude.{
  ℕ, ◌^◌, ◌≡◌, List, [], ◌∷◌, ◌++◌, Bool, true, false, Option, none, some, length, leb, ◌&&◌, ◌==◌,
  if◌then◌else◌,
}
use net_bricks.Stores.Maps.{find, put_all, erase}

pub record DpMergeableStore (K T : Type 0) : Type 0 where
  pub state : List (K × T)
  pub cache : List (K × T)
  pub cache_size : ℕ

abbrev pub cache_size : ℕ
cache_size = 2 ^ 14

abbrev pub value_or : {T : Type 0} → T → Option T → T
value_or default none = default
value_or default (some v) = v

module _ {K T : Type 0} where
  -- The second number is the capacity of the map at the start.
  abbrev pub with_cache_and_size : ℕ → ℕ → DpMergeableStore K T
  with_cache_and_size cache size = record { state = []; cache = []; cache_size = cache }

  abbrev pub new : DpMergeableStore K T
  new = with_cache_and_size cache_size (2 ^ 24)

  abbrev pub is_empty : DpMergeableStore K T → Bool
  is_empty s = (length s.state == 0) && (length s.cache == 0)

module _ {K T : Type 0} (same : (a b : K) → Dec (a ≡ b)) (default : T) where
  abbrev pub merge_cache : DpMergeableStore K T → DpMergeableStore K T
  merge_cache s = record s { state = put_all same s.cache s.state; cache = [] }

  unfoldable pub update : DpMergeableStore K T → K → T → DpMergeableStore K T
  update s flow inc =
      let s = record s { cache = s.cache ++ (flow, inc) ∷ [] } in
      if leb s.cache_size (length s.cache) then merge_cache s else s

  unfoldable pub remove : DpMergeableStore K T → K → DpMergeableStore K T × T
  remove s flow =
      let s = merge_cache s in
      (record s { state = erase same flow s.state }, value_or default (find same flow s.state))

  abbrev pub iter : DpMergeableStore K T → DpMergeableStore K T × List (K × T)
  iter s = let s = merge_cache s in (s, s.state)

  abbrev pub len : DpMergeableStore K T → DpMergeableStore K T × ℕ
  len s = let s = merge_cache s in (s, length s.state)
