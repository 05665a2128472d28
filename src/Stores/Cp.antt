-- ===== src/Stores/Cp.antt =====
-- framework/src/state/cp_mergeable.rs: the data path collects updates and sends them in batches over
-- a channel to the control plane, which merges them. The channel holds up to `channel_size` batches.
mod Tests
pub mod Merged
use net_bricks.Prelude.{
  ℕ, zero, suc, ◌^◌, ◌≡◌, List, [], ◌∷◌, ◌++◌, Bool, Option, none, some, length, add64, ltb, leb,
  ◌==◌, if◌then◌else◌,
}
use net_bricks.Stores.Maps.{find, put, erase}

pub record CpMergeableStoreDataPath (K T : Type 0) : Type 0 where
  pub cache : List (K × T)
  pub updates : ℕ
  pub delay : ℕ

pub record CpMergeableStoreControlPlane (K T : Type 0) : Type 0 where
  pub flow_counters : List (K × T)

-- Both ends, and the batches in the channel between them.
pub record CpMergeableStore (K T : Type 0) : Type 0 where
  pub data_path : CpMergeableStoreDataPath K T
  pub channel : List (List (K × T))
  pub channel_size : ℕ
  pub control_plane : CpMergeableStoreControlPlane K T

abbrev pub value_or : {T : Type 0} → T → Option T → T
value_or default none = default
value_or default (some v) = v

abbrev pub new_cp_mergeable_store : {K T : Type 0} → ℕ → ℕ → CpMergeableStore K T
new_cp_mergeable_store delay channel_size = record {
  data_path = record { cache = []; updates = 0; delay = delay };
  channel = [];
  channel_size = channel_size;
  control_plane = record { flow_counters = [] };
}

-- A batch that finds the channel full is dropped.
unfoldable pub update : {K T : Type 0} → CpMergeableStore K T → K → T → CpMergeableStore K T
update s flow inc =
    let d = s.data_path in
    let cache = d.cache ++ (flow, inc) ∷ [] in
    let updates = add64 d.updates 1 in
    let channel =
      if ltb (length s.channel) s.channel_size then s.channel ++ cache ∷ [] else s.channel in
    if leb d.delay updates
    then record s { data_path = record d { cache = []; updates = 0 }; channel = channel }
    else record s { data_path = record d { cache = cache; updates = updates } }

module _ {K T : Type 0} (same : (a b : K) → Dec (a ≡ b)) (merge : T → T → T) (default : T) where
  abbrev pub get : CpMergeableStoreControlPlane K T → K → T
  get c flow = value_or default (find same flow c.flow_counters)

  unfoldable pub update_internal :
      CpMergeableStoreControlPlane K T → List (K × T) → CpMergeableStoreControlPlane K T
  update_internal c [] = c
  update_internal c ((flow, v) ∷ rest) =
      update_internal
        (record c { flow_counters = put same flow (merge (get c flow) v) c.flow_counters }) rest

  unfoldable pub recv : CpMergeableStore K T → CpMergeableStore K T
  recv s = elim s.channel [
    | [] ↦ s
    | v ∷ rest ↦ record s { channel = rest; control_plane = update_internal s.control_plane v }
  ]

  abbrev pub remove : CpMergeableStoreControlPlane K T → K → CpMergeableStoreControlPlane K T × T
  remove c flow = (record c { flow_counters = erase same flow c.flow_counters }, get c flow)

abbrev pub iter : {K T : Type 0} → CpMergeableStoreControlPlane K T → List (K × T)
iter c = c.flow_counters

abbrev pub len : {K T : Type 0} → CpMergeableStoreControlPlane K T → ℕ
len c = length c.flow_counters

abbrev pub is_empty : {K T : Type 0} → CpMergeableStoreControlPlane K T → Bool
is_empty c = length c.flow_counters == 0
