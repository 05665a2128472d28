-- ===== src/Mpsc/Threads/Moves/Store.antt =====
-- The stores of `enqueue_mbufs` of framework/src/queues/mpsc_mbuf_queue.rs into reserved slots.
use net_bricks.Prelude.{
  ℕ, suc, ◌+◌, ◌%◌, ◌≤◌, ◌<◌, ◌≡◌, ◌≢◌, refl, ◌∙◌, List, some, arith, length, get_or, get_elem?,
  set, get_elem?-some,
}
use net_bricks.RingBuffer.Window.{size_pos}
use net_bricks.Mpsc.{MpscQueue}
use net_bricks.Mpsc.Threads.{Pc, storing, ConsumerPc, queue_idx}
use net_bricks.Mpsc.Threads.Places.{Holds, queue_idx_lem, set-Holds, set-base}
use net_bricks.Mpsc.Threads.Frame.{IsFresh-frame, IsReader-frame}
use net_bricks.Mpsc.Threads.Invariant.{
  first, batch, stored_count, IsFresh, IsOwner, Apart, IsOrdered,
}

module _ {q : MpscQueue} {log received : List ℕ} {c : ConsumerPc} {mbufs : List ℕ} {h k m : ℕ}
    (o : IsOrdered q log received c) (own : IsOwner q log (storing h mbufs k))
    (there : get_elem? mbufs k ≡ some m) where
  abbrev stored : MpscQueue
  stored = record q { queue = set q.queue (queue_idx q h k) m }

  read : (k < length mbufs) × (m ≡ get_or mbufs k 0)
  read = get_elem?-some mbufs k m 0 there

  span : (0 < length mbufs → q.producer.tail ≤ h) × (h + length mbufs ≤ q.producer.head)
  unfolding first batch
  span = (own.above, own.below)

  held : m ≡ get_or log (h + k) 0
  unfolding first batch
  held = read.1 ∙ own.logged k read.0

  small : k ≤ q.slots
  small =
      let (from, to) = span in
      omega (
        arith,
        read.0,
        from (omega (arith, read.0)),
        to,
        o.claimed,
        o.unread,
        o.taken,
        o.committed,
        o.room,
        o.shape.masked,
      )

  place : queue_idx q h k ≡ (h + k) % q.slots
  place = queue_idx_lem q o.shape h k small

  keeps :
      (p : ℕ)
      → q.consumer.tail ≤ p
      → p < q.producer.head
      → (p ≢ h + k → Holds q log p)
      → Holds stored log p
  keeps p low high rest =
      let (from, to) = span in
      let low' = from (omega (arith, read.0)) in
      let slots = size_pos o.shape in
      set-Holds q o.shape log (h + k) (queue_idx q h k) m p place held
        (omega (
          arith, read.0, low', to, o.claimed, o.unread, o.taken, o.committed, o.room,
          o.shape.masked,
        ))
        (omega (
          arith, read.0, low', to, o.claimed, o.unread, o.taken, o.committed, o.room,
          o.shape.masked,
        ))
        rest

  pub store-IsOrdered : IsOrdered stored log received c
  store-IsOrdered = record {
    shape = set-base q o.shape (queue_idx q h k) m;
    all_logged = o.all_logged;
    unread = o.unread;
    claimed = o.claimed;
    taken = o.taken;
    committed = o.committed;
    room = o.room;
    reader = IsReader-frame q stored received c refl refl (omega arith) o.reader;
    prefix = o.prefix;
    kept =
        λ p l u. keeps p (omega (arith, o.unread)) (omega (arith, o.committed)) λ ne. o.kept p l u;
  }

  pub store-IsOwner : IsOwner stored log (storing h mbufs (suc k))
  unfolding first batch stored_count IsFresh
  store-IsOwner = record {
    above = own.above;
    below = own.below;
    part = omega (arith, read.0);
    logged = own.logged;
    stored = λ j l.
        let low = own.above (omega (arith, read.0)) in
        keeps (h + j) (omega (arith, low, o.claimed, o.unread, o.taken))
          (omega (arith, read.0, own.below)) λ ne. own.stored j (omega (arith, ne));
    fresh = own.fresh;
  }

  pub store-other : {p : Pc} → IsOwner q log p → Apart (storing h mbufs k) p → IsOwner stored log p
  unfolding first batch
  store-other {p} w a = record {
    above = w.above;
    below = w.below;
    part = w.part;
    logged = w.logged;
    stored = λ j l.
        let some_here : 0 < length mbufs = omega (arith, read.0) in
        let some_there : 0 < length (batch p) = omega (arith, w.part) in
        let low = w.above some_there in
        keeps (first p + j) (omega (arith, low, o.claimed, o.unread, o.taken))
          (omega (arith, w.part, w.below)) λ ne. w.stored j l;
    fresh = IsFresh-frame q stored p (omega arith) (omega arith) refl (λ pos e. e) w.fresh;
  }
