-- ===== src/Operators/Filter.antt =====
-- framework/src/operators/filter_batch.rs over a packet batch. The filter is a test on the pointer of
-- a packet that keeps no state from one packet to the next; what the parent does when it acts, and
-- the deallocation of DPDK, are parameters.
mod Tests
pub mod Passing
use net_bricks.Prelude.{ℕ, suc, List, [], ◌∷◌, ◌++◌, Bool, Option, none, some, if◌then◌else◌}
use net_bricks.Prelude.Run.{Run, returns, panics, bind}
use net_bricks.PacketBatch.{PacketBatch, array, capacity, drop_packets_stable}

pub record FilterBatch : Type 0 where
  pub parent : PacketBatch
  pub filter : ℕ → Bool
  pub capacity : ℕ
  pub remove : List ℕ

abbrev pub new : PacketBatch → (ℕ → Bool) → FilterBatch
new parent filter = record {
  parent = parent;
  filter = filter;
  capacity = capacity parent;
  remove = [];
}

-- The indices, from `idx` on, of the packets that the filter refuses.
unfoldable pub refused : (ℕ → Bool) → ℕ → List ℕ → List ℕ
refused filter idx [] = []
refused filter idx (packet ∷ rest) =
    let later = refused filter (suc idx) rest in if filter packet then later else idx ∷ later

-- `expect` on the result of `drop_packets`
abbrev pub expect : FilterBatch → PacketBatch × Option ℕ → Run FilterBatch
expect b (parent, none) = panics
expect b (parent, some n) = returns (record b { parent = parent; remove = [] })

unfoldable pub act : (PacketBatch → PacketBatch) → (List ℕ → ℕ) → FilterBatch → Run FilterBatch
act parent_act mbuf_free_bulk b =
    let parent = parent_act b.parent in
    elim (b.remove ++ refused b.filter 0 (array parent)) [
      | [] ↦ returns (record b { parent = parent; remove = [] })
      | i ∷ remove ↦ bind (drop_packets_stable mbuf_free_bulk parent (i ∷ remove)) (expect b)
    ]
