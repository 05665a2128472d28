-- ===== src/Stores/Mergeable/Synced.antt =====
-- The values that the stores of framework/src/state/mergeable.rs give back, whatever the locks do.
use net_bricks.Prelude.{
  ℕ, ◌+◌, ◌-◌, ◌<◌, ◌≡◌, ◌≢◌, refl, sym, ap, ◌∙◌, List, [], ◌∷◌, ◌++◌, Bool, true, false, Option,
  none, arith, length, length-append, length-set, get_or, get_or-set_self, get_or-set_ne,
  get_or-append_left, get_or-append_right, set, leb, if◌then◌else◌,
}
use net_bricks.Prelude.Run.{returns}
use net_bricks.Stores.Maps.{
  find, put_all, erase, last_of, find-put_all, last_of-append, IsMap, put_all-IsMap, last_of-IsMap,
}
use net_bricks.Stores.Mergeable.{
  MergeableStoreCp, MergeableStoreDp, value_or, new, dp_store_with_cache_and_size, copies, sync,
  get, merge_held, merge_cache, update, remove,
}

-- An update, and whether it finds the lock free.
abbrev pub Try : Type 0 → Type 0 → Type 0
Try K T = Bool × K × T

module _ {K T : Type 0} (same : (a b : K) → Dec (a ≡ b)) (default : T) where
  abbrev pub Maps : Type 0
  Maps = List (List (K × T))

  unfoldable pub try_all :
      Maps → MergeableStoreDp K T → List (Try K T) → Maps × MergeableStoreDp K T
  try_all maps d [] = (maps, d)
  try_all maps d ((free, k, v) ∷ rest) =
      let (maps, d) = update same default free maps d k v in try_all maps d rest

  -- The updates without the answers of the lock.
  unfoldable pub updates_of : List (Try K T) → List (K × T)
  updates_of [] = []
  updates_of ((free, k, v) ∷ rest) = (k, v) ∷ updates_of rest

  abbrev map_of : Maps → MergeableStoreDp K T → List (K × T)
  map_of maps d = get_or maps d.flow_counters []

  -- The value of a key once the cache is merged.
  abbrev pending : Maps → MergeableStoreDp K T → K → Option T
  pending maps d k = last_of same k d.cache (find same k (map_of maps d))

  -- From `maps` and `d` to `maps'` and `d'` only the map of the store has changed, and the pending
  -- values have had the updates `ups`.
  record Grown (maps : Maps) (d : MergeableStoreDp K T) (maps' : Maps) (d' : MergeableStoreDp K T)
      (ups : List (K × T)) : Type 0 where
    place : d'.flow_counters ≡ d.flow_counters
    count : length maps' ≡ length maps
    is_map : IsMap same (map_of maps' d')
    others : (j : ℕ) → j ≢ d.flow_counters → get_or maps' j [] ≡ get_or maps j []
    values : (k : K) → pending maps' d' k ≡ last_of same k ups (pending maps d k)

  merge_held-Grown :
      (maps : Maps) (d : MergeableStoreDp K T)
      → d.flow_counters < length maps
      → IsMap same (map_of maps d)
      → Grown maps d (merge_held same default maps d).0 (merge_held same default maps d).1 []
  unfolding last_of
  merge_held-Grown maps d inside is_map =
      let g : List (K × T) = put_all same d.cache (map_of maps d) in
      let e : get_or (set maps d.flow_counters g) d.flow_counters [] ≡ g =
        get_or-set_self maps d.flow_counters g [] inside in
      record {
        place = refl;
        count = length-set maps d.flow_counters g;
        is_map = rw e (put_all-IsMap same d.cache (map_of maps d) is_map);
        others = λ j ne. get_or-set_ne maps d.flow_counters j g [] (λ q. ne (sym q));
        values = λ k. rw e (find-put_all same k d.cache (map_of maps d));
      }

  merge_cache-Grown :
      (free : Bool) (maps : Maps) (d : MergeableStoreDp K T)
      → d.flow_counters < length maps
      → IsMap same (map_of maps d)
      → Grown maps d
          (merge_cache same default free maps d).0
          (merge_cache same default free maps d).1
          []
  unfolding merge_cache last_of
  merge_cache-Grown true maps d inside is_map = merge_held-Grown maps d inside is_map
  merge_cache-Grown false maps d inside is_map = record {
    place = refl;
    count = refl;
    is_map = is_map;
    others = λ j ne. refl;
    values = λ k. refl;
  }

  maybe-Grown :
      (full free : Bool) (maps : Maps) (d : MergeableStoreDp K T)
      → d.flow_counters < length maps
      → IsMap same (map_of maps d)
      → let r = if full then merge_cache same default free maps d else (maps, d) in
        Grown maps d r.0 r.1 []
  unfolding last_of
  maybe-Grown true free maps d inside is_map = merge_cache-Grown free maps d inside is_map
  maybe-Grown false free maps d inside is_map = record {
    place = refl;
    count = refl;
    is_map = is_map;
    others = λ j ne. refl;
    values = λ k. refl;
  }

  update-Grown :
      (free : Bool) (maps : Maps) (d : MergeableStoreDp K T) (a : K) (v : T)
      → d.flow_counters < length maps
      → IsMap same (map_of maps d)
      → let r = update same default free maps d a v in Grown maps d r.0 r.1 ((a, v) ∷ [])
  unfolding update last_of
  update-Grown free maps d a v inside is_map =
      let added : MergeableStoreDp K T = record d { cache = d.cache ++ (a, v) ∷ [] } in
      let g = maybe-Grown (leb d.cache_size (length added.cache)) free maps added inside is_map in
      record {
        place = g.place;
        count = g.count;
        is_map = g.is_map;
        others = g.others;
        values = λ k.
            g.values k ∙ last_of-append same k d.cache ((a, v) ∷ []) (find same k (map_of maps d));
      }

  try_all-Grown :
      (maps : Maps) (d : MergeableStoreDp K T) (tries : List (Try K T))
      → d.flow_counters < length maps
      → IsMap same (map_of maps d)
      → let r = try_all maps d tries in Grown maps d r.0 r.1 (updates_of tries)
  unfolding try_all updates_of last_of
  try_all-Grown maps d [] inside is_map = record {
    place = refl;
    count = refl;
    is_map = is_map;
    others = λ j ne. refl;
    values = λ k. refl;
  }
  try_all-Grown maps d ((free, a, v) ∷ rest) inside is_map =
      let r = update same default free maps d a v in
      let g = update-Grown free maps d a v inside is_map in
      let h = try_all-Grown r.0 r.1 rest (omega (arith, g.place, g.count)) g.is_map in
      record {
        place = h.place ∙ g.place;
        count = h.count ∙ g.count;
        is_map = h.is_map;
        others = λ j ne. h.others j (λ e. ne (e ∙ g.place)) ∙ g.others j ne;
        values = λ k. h.values k ∙ ap (last_of same k (updates_of rest)) (g.values k);
      }

  one_map : (maps : Maps) → length maps ≡ 1 → maps ≡ get_or maps 0 [] ∷ []
  one_map [] h = absurd (omega arith)
  one_map (m ∷ []) h = refl
  one_map (m ∷ n ∷ maps) h = absurd (omega arith)

  -- A store that is new has no values pending, and its map is the last one.
  new_store :
      (cp : MergeableStoreCp K T) (cache size : ℕ) (tries : List (Try K T))
      → let made = dp_store_with_cache_and_size cp cache size in
        let r = try_all made.0.hashmaps made.1 tries in
        (length r.0 ≡ length cp.hashmaps + 1)
        × (r.1.flow_counters ≡ length cp.hashmaps)
        × IsMap same (map_of r.0 r.1)
        × ((j : ℕ) → j < length cp.hashmaps → get_or r.0 j [] ≡ get_or cp.hashmaps j [])
        × ((k : K) → pending r.0 r.1 k ≡ last_of same k (updates_of tries) none)
  unfolding last_of find
  new_store cp cache size tries =
      let made = dp_store_with_cache_and_size cp cache size in
      let maps : Maps = cp.hashmaps in
      let n : ℕ = length maps in
      let count : length (maps ++ [] ∷ []) ≡ n + 1 = length-append maps ([] ∷ []) in
      let back : n - n ≡ 0 = omega arith in
      let empty : map_of made.0.hashmaps made.1 ≡ [] =
        get_or-append_right maps ([] ∷ []) n [] (omega arith)
        ∙ ap (λ i. get_or ([] ∷ []) i []) back in
      let g = try_all-Grown made.0.hashmaps made.1 tries (omega (arith, count)) (rw empty tt) in
      (
        omega (arith, g.count, count),
        g.place,
        g.is_map,
        λ j l. g.others j (λ e. absurd (omega arith)) ∙ get_or-append_left maps ([] ∷ []) j [] l,
        λ k. g.values k ∙ ap (λ t. last_of same k (updates_of tries) (find same k t)) empty,
      )

  -- After any updates of a new store of the data path, whether or not they find its lock free,
  -- `remove` with a lock that is not poisoned gives the value of the last update of the key, or the
  -- default without one, and the maps of the stores from before have not changed.
  pub remove-try_all :
      (cp : MergeableStoreCp K T) (cache size : ℕ) (tries : List (Try K T)) (k : K)
      → let made = dp_store_with_cache_and_size cp cache size in
        let r = try_all made.0.hashmaps made.1 tries in
        (maps : Maps) × (d : MergeableStoreDp K T) × (remove same default false r.0 r.1 k
          ≡ returns (maps, d, value_or default (last_of same k (updates_of tries) none)))
        × ((j : ℕ) → j < length cp.hashmaps → get_or maps j [] ≡ get_or cp.hashmaps j [])
  unfolding remove last_of
  remove-try_all cp cache size tries k =
      let made = dp_store_with_cache_and_size cp cache size in
      let r = try_all made.0.hashmaps made.1 tries in
      let (count, place, is_map, others, values) = new_store cp cache size tries in
      let g = merge_held-Grown r.0 r.1 (omega (arith, count, place)) is_map in
      let held = merge_held same default r.0 r.1 in
      let there : ℕ = held.1.flow_counters in
      let left : List (K × T) = erase same k (map_of held.0 held.1) in
      (
        set held.0 there left,
        held.1,
        ap (λ v. returns (set held.0 there left, held.1, value_or default v))
            (g.values k ∙ values k),
        λ j l.
            get_or-set_ne held.0 there j left [] (λ e. absurd (omega (arith, e, place)))
            ∙ g.others j (λ e. absurd (omega (arith, e, place)))
            ∙ others j l,
      )

  -- For the first store of the data path and any updates of it, whether or not they find its lock
  -- free, and whatever the control plane has from an earlier `sync`: after a `merge_cache` and a
  -- `sync` that both find the lock free, `get` gives the value of the last update of the key, or the
  -- default without one. If `sync` finds it taken, what was there before is gone all the same, and
  -- `get` gives the default for every key.
  pub get-sync :
      (earlier : List (K × T)) (cache size : ℕ) (tries : List (Try K T)) (k : K)
      → let (cp, d) = dp_store_with_cache_and_size new cache size in
        let r = try_all cp.hashmaps d tries in
        let merged = merge_cache same default true r.0 r.1 in
        let cp = record cp { flow_counters = earlier; hashmaps = merged.0 } in
        (get same default (sync same default (true ∷ []) cp) k
          ≡ value_or default (last_of same k (updates_of tries) none))
        × (get same default (sync same default (false ∷ []) cp) k ≡ default)
  unfolding copies merge_cache last_of find put_all
  get-sync earlier cache size tries k =
      let made = dp_store_with_cache_and_size new cache size in
      let r = try_all made.0.hashmaps made.1 tries in
      let (count, place, is_map, others, values) = new_store new cache size tries in
      let g = merge_held-Grown r.0 r.1 (omega (arith, count, place)) is_map in
      let merged = merge_held same default r.0 r.1 in
      let m : List (K × T) = map_of merged.0 merged.1 in
      let one : merged.0 ≡ m ∷ [] =
        one_map merged.0 (g.count ∙ count)
        ∙ ap (λ i. get_or merged.0 i [] ∷ []) (sym (g.place ∙ place)) in
      let seen = λ (locks : List Bool) (maps : Maps).
        value_or default (find same k (put_all same (copies locks maps) [])) in
      (
        ap (seen (true ∷ [])) one
            ∙ ap (value_or default) (
                find-put_all same k (m ++ []) []
                ∙ last_of-append same k m [] none
                ∙ last_of-IsMap same k m g.is_map
                ∙ g.values k
                ∙ values k),
        ap (seen (false ∷ [])) one,
      )
