-- ===== src/Operators/GroupBy.antt =====
-- The task of framework/src/operators/group_by.rs: it puts the packets of a batch into the queues of
-- their groups. The state `W` is all that the group function, the parent and the saving of a
-- packet's header read or change, the bytes of the packets among it; those three are arguments.
mod Tests
pub mod Grouped
use net_bricks.Prelude.{ℕ, List, [], ◌∷◌, get_elem?, set}
use net_bricks.Prelude.Run.{Run, returns, bind, or_panic}
use net_bricks.PacketBatch.{PacketBatch, array, consume_batch}
use net_bricks.Mpsc.{MpscQueue, enqueue_one}

pub record GroupByProducer : Type 0 where
  pub parent : PacketBatch
  pub producers : List MpscQueue

module _ {W : Type 0} (group_fn : ℕ → W → W × ℕ) (save_header_and_offset : ℕ → W → W) where
  -- `while let` over the packets: a group without a queue panics, and what `enqueue_one` returns
  -- is not looked at.
  unfoldable pub enqueue_all : ℕ → List ℕ → W → List MpscQueue → Run (W × List MpscQueue)
  enqueue_all fuel [] w producers = returns (w, producers)
  enqueue_all fuel (packet ∷ rest) w producers =
      let (w, group) = group_fn packet w in
      let w = save_header_and_offset packet w in
      bind (or_panic (get_elem? producers group)) λ producer.
        bind (enqueue_one fuel producer packet)
          λ r. enqueue_all fuel rest w (set producers group r.0)

  module _ (parent_act parent_done : PacketBatch → W → W × PacketBatch) where
    unfoldable pub execute : ℕ → W → GroupByProducer → Run (W × GroupByProducer)
    execute fuel w g =
        let (w, parent) = parent_act g.parent w in
        bind (enqueue_all fuel (array parent) w g.producers) λ r.
          let (w, parent) = parent_done (consume_batch parent) r.0 in
          returns (w, record { parent = parent; producers = r.1 })
