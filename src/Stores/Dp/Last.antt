-- ===== src/Stores/Dp/Last.antt =====
-- The values that the store of framework/src/state/dp_mergeable.rs gives back.
use net_bricks.Prelude.{
  ℕ, ◌≡◌, refl, ap, ◌∙◌, List, [], ◌∷◌, ◌++◌, Bool, true, false, Option, none, length, leb,
  if◌then◌else◌,
}
use net_bricks.Stores.Maps.{find, put_all, find-erase, last_of, find-put_all, last_of-append}
use net_bricks.Stores.Dp.{
  DpMergeableStore, value_or, with_cache_and_size, merge_cache, update, remove,
}

module _ {K T : Type 0} (same : (a b : K) → Dec (a ≡ b)) (default : T) where
  unfoldable pub update_all : DpMergeableStore K T → List (K × T) → DpMergeableStore K T
  update_all s [] = s
  update_all s ((k, v) ∷ rest) = update_all (update same default s k v) rest

  -- The value of a key once the cache is merged.
  abbrev pending : DpMergeableStore K T → K → Option T
  pending s k = last_of same k s.cache (find same k s.state)

  -- A merge of the cache changes no value.
  pending-merge :
      (b : Bool) (s : DpMergeableStore K T) (k : K)
      → pending (if b then merge_cache same default s else s) k ≡ pending s k
  unfolding last_of
  pending-merge true s k = find-put_all same k s.cache s.state
  pending-merge false s k = refl

  pending-update :
      (s : DpMergeableStore K T) (a : K) (v : T) (k : K)
      → pending (update same default s a v) k ≡ last_of same k ((a, v) ∷ []) (pending s k)
  unfolding update
  pending-update s a v k =
      let added : DpMergeableStore K T = record s { cache = s.cache ++ (a, v) ∷ [] } in
      pending-merge (leb s.cache_size (length added.cache)) added k
      ∙ last_of-append same k s.cache ((a, v) ∷ []) (find same k s.state)

  pending-update_all :
      (s : DpMergeableStore K T) (xs : List (K × T)) (k : K)
      → pending (update_all s xs) k ≡ last_of same k xs (pending s k)
  unfolding update_all last_of
  pending-update_all s [] k = refl
  pending-update_all s ((a, v) ∷ xs) k =
      pending-update_all (update same default s a v) xs k
      ∙ ap (last_of same k xs) (pending-update s a v k)

  -- After any updates of a new store, whatever its sizes, `remove` gives the value of the last
  -- update of the key, or the default without one, and a second `remove` gives the default. So
  -- earlier updates of the key are not merged into it.
  pub remove-update_all :
      (cache size : ℕ) (updates : List (K × T)) (k : K)
      → let s = update_all (with_cache_and_size cache size) updates in
        let (s', value) = remove same default s k in
        (value ≡ value_or default (last_of same k updates none))
        × ((remove same default s' k).1 ≡ default)
  unfolding remove find last_of put_all
  remove-update_all cache size updates k =
      let s = update_all (with_cache_and_size cache size) updates in
      (
        ap (value_or default) (
            find-put_all same k s.cache s.state
            ∙ pending-update_all (with_cache_and_size cache size) updates k),
        ap (value_or default) (find-erase same k (put_all same s.cache s.state)),
      )
