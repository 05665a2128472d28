-- ===== src/Stores/Cp/Merged.antt =====
-- What the control plane of framework/src/state/cp_mergeable.rs has merged.
use mathlib.Core.List.{append_assoc, append-nil}
use mathlib.Core.Logic.{ite, if_pos, if_neg}
use mathlib.Core.Path.{subst}
use net_bricks.Prelude.{
  ℕ, suc, ◌+◌, ◌≤◌, ◌<◌, ◌≡◌, refl, sym, ap, ◌∙◌, List, [], ◌∷◌, ◌++◌, Bool, true, false, arith,
  length, length-append, add64, ltb, leb, if◌then◌else◌,
}
use net_bricks.Stores.Maps.{find, put, find-put_self, find-put_ne}
use net_bricks.Stores.Cp.{
  CpMergeableStoreDataPath, CpMergeableStoreControlPlane, CpMergeableStore, value_or,
  new_cp_mergeable_store, update, get, update_internal, recv,
}

-- The batches of the channel, one after the other.
abbrev pub flat : {A : Type 0} → List (List A) → List A
flat [] = []
flat (x ∷ rest) = x ++ flat rest

flat-append : {A : Type 0} (xs : List (List A)) (x : List A) → flat (xs ++ x ∷ []) ≡ flat xs ++ x
flat-append [] x = append-nil x
flat-append (y ∷ ys) x = ap (λ t. y ++ t) (flat-append ys x) ∙ sym (append_assoc y (flat ys) x)

pub data Event (K T : Type 0) : Type 0 where
  updating : K → T → Event K T
  receiving : Event K T

-- The updates among some events.
abbrev pub updates_of : {K T : Type 0} → List (Event K T) → List (K × T)
updates_of [] = []
updates_of (updating k v ∷ rest) = (k, v) ∷ updates_of rest
updates_of (receiving ∷ rest) = updates_of rest

module _ {K T : Type 0} (same : (a b : K) → Dec (a ≡ b)) (merge : T → T → T) (default : T) where
  unfoldable pub play : CpMergeableStore K T → List (Event K T) → CpMergeableStore K T
  play s [] = s
  play s (updating k v ∷ rest) = play (update s k v) rest
  play s (receiving ∷ rest) = play (recv same merge default s) rest

  -- All values of a key, merged in their order.
  unfoldable pub merged : K → List (K × T) → T → T
  merged k [] from = from
  merged k ((a, v) ∷ rest) from = merged k rest (ite (same k a) (merge from v) from)

  -- Of the updates, some have been received and merged, the next lie in the channel, and the last
  -- in the cache.
  pub record Accounts (s : CpMergeableStore K T) (updates : List (K × T)) : Type 0 where
    pub received : List (K × T)
    pub all : received ++ flat s.channel ++ s.data_path.cache ≡ updates
    pub counts : (k : K) → get same merge default s.control_plane k ≡ merged k received default

  merged-append :
      (k : K) (xs ys : List (K × T)) (from : T)
      → merged k (xs ++ ys) from ≡ merged k ys (merged k xs from)
  unfolding merged
  merged-append k [] ys from = refl
  merged-append k ((a, v) ∷ xs) ys from = merged-append k xs ys (ite (same k a) (merge from v) from)

  get-update_internal :
      (c : CpMergeableStoreControlPlane K T) (xs : List (K × T)) (k : K)
      → get same merge default (update_internal same merge default c xs) k
        ≡ merged k xs (get same merge default c k)
  unfolding update_internal merged
  get-update_internal c [] k = refl
  get-update_internal c ((a, v) ∷ xs) k =
      let total : T = merge (get same merge default c a) v in
      get-update_internal (record c { flow_counters = put same a total c.flow_counters }) xs k
      ∙ ap (merged k xs) (elim (same k a) [
        | yes e ↦
            ap (λ x. value_or default (find same x (put same a total c.flow_counters))) e
            ∙ ap (value_or default) (find-put_self same a total c.flow_counters)
            ∙ ap (λ x. merge (get same merge default c x) v) (sym e)
            ∙ sym (
                if_pos (same k a) e (merge (get same merge default c k) v)
                  (get same merge default c k))
        | no ne ↦
            ap (value_or default) (find-put_ne same a k total c.flow_counters ne)
            ∙ sym (
                if_neg (same k a) ne (merge (get same merge default c k) v)
                  (get same merge default c k))
      ])

  if-Accounts :
      (b : Bool) (x y : CpMergeableStore K T) (us : List (K × T))
      → Accounts x us
      → Accounts y us
      → Accounts (if b then x else y) us
  if-Accounts true x y us h k = h
  if-Accounts false x y us h k = k

  update-Accounts :
      (s : CpMergeableStore K T) (us : List (K × T)) (k : K) (v : T)
      → length s.channel < s.channel_size
      → Accounts s us
      → Accounts (update s k v) (us ++ (k, v) ∷ [])
  unfolding update
  update-Accounts s us k v room a =
      let d = s.data_path in
      let one : List (K × T) = (k, v) ∷ [] in
      let front : List (K × T) = a.received ++ flat s.channel in
      let cached : front ++ (d.cache ++ one) ≡ us ++ one =
        sym (append_assoc front d.cache one) ∙ ap (λ t. t ++ one) a.all in
      let test : ltb (length s.channel) s.channel_size ≡ true = ground arith in
      if-Accounts (leb d.delay (add64 d.updates 1)) _ _ (us ++ one)
        (record {
          received = a.received;
          all =
              append-nil _
              ∙ ap
                  (λ b.
                    a.received
                    ++ flat (if b then s.channel ++ (d.cache ++ one) ∷ [] else s.channel))
                  test
              ∙ ap (λ t. a.received ++ t) (flat-append s.channel (d.cache ++ one))
              ∙ sym (append_assoc a.received (flat s.channel) (d.cache ++ one))
              ∙ cached;
          counts = a.counts;
        })
        (record { received = a.received; all = cached; counts = a.counts })

  receive :
      (d : CpMergeableStoreDataPath K T) (channel : List (List (K × T))) (size : ℕ)
      (c : CpMergeableStoreControlPlane K T) (us : List (K × T))
      → Accounts
          (record { data_path = d; channel = channel; channel_size = size; control_plane = c })
          us
      → Accounts
          (recv same merge default
            (record { data_path = d; channel = channel; channel_size = size; control_plane = c }))
          us
  unfolding recv
  receive d [] size c us a = a
  receive d (v ∷ rest) size c us a = record {
    received = a.received ++ v;
    all = ap (λ t. t ++ d.cache) (append_assoc a.received v (flat rest)) ∙ a.all;
    counts = λ k.
        get-update_internal c v k
        ∙ ap (merged k v) (a.counts k)
        ∙ sym (merged-append k a.received v default);
  }

  length-recv :
      (d : CpMergeableStoreDataPath K T) (channel : List (List (K × T))) (size : ℕ)
      (c : CpMergeableStoreControlPlane K T)
      → let s =
          recv same merge default
            (record { data_path = d; channel = channel; channel_size = size; control_plane = c }) in
        (length s.channel ≤ length channel) × (s.channel_size ≡ size)
  unfolding recv
  length-recv d [] size c = (omega arith, refl)
  length-recv d (v ∷ rest) size c = (omega arith, refl)

  length-update :
      (s : CpMergeableStore K T) (k : K) (v : T)
      → (length (update s k v).channel ≤ suc (length s.channel))
        × ((update s k v).channel_size ≡ s.channel_size)
  unfolding update
  length-update s k v =
      ground (arith, length-append s.channel ((s.data_path.cache ++ (k, v) ∷ []) ∷ []))

  play-Accounts :
      (s : CpMergeableStore K T) (us : List (K × T)) (events : List (Event K T))
      → length s.channel + length events ≤ s.channel_size
      → Accounts s us
      → Accounts (play s events) (us ++ updates_of events)
  unfolding play
  play-Accounts s us [] room a = subst (Accounts s) (sym (append-nil us)) a
  play-Accounts s us (updating k v ∷ rest) room a =
      let (more, same_size) = length-update s k v in
      subst (Accounts (play (update s k v) rest)) (append_assoc us ((k, v) ∷ []) (updates_of rest))
        (play-Accounts (update s k v) (us ++ (k, v) ∷ []) rest (omega (arith, more, same_size))
          (update-Accounts s us k v (omega arith) a))
  play-Accounts s us (receiving ∷ rest) room a =
      let (fewer, same_size) = length-recv s.data_path s.channel s.channel_size s.control_plane in
      play-Accounts (recv same merge default s) us rest (omega (arith, fewer, same_size))
        (receive s.data_path s.channel s.channel_size s.control_plane us a)

  -- From a new store, after any updates and receipts that are no more than the channel has room
  -- for: no update is lost or done twice. Some of the updates have been received, the next ones
  -- lie in the batches of the channel and the last ones in the cache, all in their order; and what
  -- the control plane gives for a key is the default with all received values of the key merged
  -- into it, in their order.
  pub play-new :
      (delay channel_size : ℕ) (events : List (Event K T))
      → length events ≤ channel_size
      → Accounts (play (new_cp_mergeable_store delay channel_size) events) (updates_of events)
  unfolding merged find
  play-new delay channel_size events few =
      play-Accounts (new_cp_mergeable_store delay channel_size) [] events (omega arith)
        (record { received = []; all = refl; counts = λ k. refl })
