-- ===== src/Mpsc/Threads/Safety.antt =====
-- What any number of producers and one consumer see of the queue of
-- framework/src/queues/mpsc_mbuf_queue.rs. The bound on the log keeps the counters from wrapping
-- round: a counter that comes back to a value it had would let a late compare and exchange succeed.
use mathlib.Core.Path.{subst}
use native.Mathlib.Decide.{dec_lt, ℕ_discrete}
use net_bricks.Prelude.{
  ℕ, ◌+◌, ◌-◌, ◌^◌, ◌≤◌, ◌<◌, ◌≡◌, ◌≢◌, sym, ap, ap₂, ◌∙◌, List, [], ◌++◌, arith, length, get_or,
  get_or_ext, take, drop, length-take, length-drop, get_or-take, get_or-drop, get_elem?-eq-get_or,
  take-append-drop,
}
use net_bricks.RingBuffer.{RingBuffer, available}
use net_bricks.RingBuffer.Window.{contents, length-contents, get_or-contents}
use net_bricks.Mpsc.{MpscQueue}
use net_bricks.Mpsc.Threads.{
  Pc, ConsumerPc, idle, calling, loaded, ready, storing, committing, reading, Move, Take, insert,
  claimed, queue_idx, call, load_head, load_tail, full, retry, reserve, store, wait, pass, commit,
  empty, claim, read, release, System, Reach,
}
use net_bricks.Mpsc.Threads.Places.{queue_idx-lt}
use net_bricks.Mpsc.Threads.Invariant.{
  first, batch, stored_count, IsFresh, IsOwner, IsReader, IsOrdered, Inv,
}
use net_bricks.Mpsc.Threads.Reachable.{Reach-Inv}

received-le : {s : System} → Inv s → length s.received ≤ length s.log
received-le inv =
    let o = inv.ordered in omega (arith, o.taken, o.claimed, o.committed, o.all_logged)

-- In a state that any number of producers and one consumer reach from a new queue of a size from 1
-- to 2 ^ 63, with fewer than 2 ^ 64 pointers enqueued so far: the pointers that the consumer has
-- read are the first of those for which slots have been reserved, in the order of the reservations.
-- None is lost, torn or read twice.
pub delivered_in_order :
    {size : ℕ} {s : System}
    → 0 < size
    → size ≤ 2 ^ 63
    → Reach size s
    → length s.log < 2 ^ 64
    → s.received ≡ take (length s.received) s.log
delivered_in_order {size} {s} pos small r few =
    let inv = Reach-Inv pos small r few in
    let few_read = received-le inv in
    let n : ℕ = length s.received in
    get_or_ext 0 s.received (take n s.log) (omega (arith, length-take n s.log))
      λ i l. inv.ordered.prefix i l ∙ sym (get_or-take n s.log i 0 l)

-- The ring between the tails of the consumer and the producers.
abbrev pub ring : MpscQueue → RingBuffer
ring q = record {
  head = q.consumer.tail;
  tail = q.producer.tail;
  size = q.slots;
  mask = q.mask;
  vec = q.queue;
}

-- In a state that any number of producers and one consumer reach from a new queue of a size from 1
-- to 2 ^ 63, with fewer than 2 ^ 64 pointers enqueued so far, and with no thread inside a call:
-- what has been read and what lies in the ring between the tails is, in this order, all that was
-- ever put in.
pub none_lost :
    {size : ℕ} {s : System}
    → 0 < size
    → size ≤ 2 ^ 63
    → Reach size s
    → length s.log < 2 ^ 64
    → ((i : ℕ) → s.producers i ≡ idle)
    → s.consumer ≡ idle
    → s.received ++ contents (ring s.queue) ≡ s.log
unfolding first batch IsReader
none_lost {size} {s} pos small r few done done_reading =
    let inv = Reach-Inv pos small r few in
    let o = inv.ordered in
    let n : ℕ = length s.received in
    let (level, read_all) = subst (λ c. IsReader s.queue s.received c) done_reading o.reader in
    let all_in : s.queue.producer.tail ≡ s.queue.producer.head =
      elim (dec_lt s.queue.producer.tail s.queue.producer.head) [
        | yes open_slot ↦
            let (i, (from, to)) = inv.covered s.queue.producer.tail (omega arith) open_slot in
            let none_left = ap (λ p. length (batch p)) (done i) in
            absurd (omega (arith, none_left, from, to))
        | no level ↦ omega (arith, o.committed)
      ] in
    let held : available (ring s.queue) ≡ length s.log - n =
      omega (arith, o.all_logged, o.claimed) in
    let rest =
      get_or_ext 0 (contents (ring s.queue)) (drop n s.log)
        (length-contents (ring s.queue) ∙ held ∙ sym (length-drop n s.log))
        λ i l.
          let few_held : i < available (ring s.queue) =
            omega (arith, length-contents (ring s.queue)) in
          get_or-contents (ring s.queue) i few_held
          ∙ o.kept (s.queue.consumer.tail + i) (omega arith) (omega (arith, held, o.all_logged))
          ∙ ap (λ k. get_or s.log (k + i) 0) (level ∙ sym read_all)
          ∙ sym (get_or-drop n s.log i 0) in
    ap₂ ◌++◌ (delivered_in_order pos small r few) rest ∙ take-append-drop n s.log

module _ {q : MpscQueue} {log received : List ℕ} {c : ConsumerPc}
    (o : IsOrdered q log received c) where
  Move_any :
      (p : Pc)
      → IsOwner q log p
      → (q' : MpscQueue) × (log' : List ℕ) × (p' : Pc) × Move q log p q' log' p'
  unfolding first batch stored_count
  Move_any idle own = (_, _, _, call [])
  Move_any (calling mbufs) own = (_, _, _, load_head)
  Move_any (loaded mbufs h) own = (_, _, _, load_tail)
  Move_any (ready mbufs h t) own = elim (dec_lt 0 (insert q mbufs h t)) [
    | yes some_room ↦ elim (ℕ_discrete q.producer.head h) [
      | yes here ↦ (_, _, _, reserve some_room here)
      | no moved ↦ (_, _, _, retry some_room moved)
    ]
    | no none_in ↦ (_, _, _, full (omega arith))
  ]
  Move_any (storing h mbufs k) own = elim (dec_lt k (length mbufs)) [
    | yes more ↦
        let low = own.above (omega arith) in
        let k_small : k ≤ q.slots = omega (
          arith, low, own.below, o.claimed, o.unread, o.taken, o.committed, o.room, o.shape.masked,
        ) in
        (_, _, _, store (get_elem?-eq-get_or mbufs k 0 more) (queue_idx-lt q o.shape h k k_small))
    | no last ↦ elim (ℕ_discrete q.producer.tail h) [
      | yes here ↦ (_, _, _, pass (omega (arith, own.part)) here)
      | no before ↦ (_, _, _, wait (omega (arith, own.part)) before)
    ]
  ]
  Move_any (committing h mbufs) own = (_, _, _, commit)

Take_any :
    {q : MpscQueue} {log received : List ℕ} (c : ConsumerPc)
    → IsOrdered q log received c
    → (q' : MpscQueue) × (received' : List ℕ) × (c' : ConsumerPc) × Take q received c q' received'
        c'
unfolding IsReader
Take_any {q} idle o = (_, _, _, load_head 1)
Take_any (loaded len h) o = (_, _, _, load_tail)
Take_any (ready len h t) o = elim (dec_lt 0 (claimed len h t)) [
  | yes some_there ↦ (_, _, _, claim some_there)
  | no none_there ↦ (_, _, _, empty (omega arith))
]
Take_any {q} (reading h n k) o = elim (dec_lt k n) [
  | yes more ↦
      let (a, b, d, e) = o.reader in
      let k_small : k ≤ q.slots =
        omega (arith, o.claimed, o.unread, o.taken, o.committed, o.room, o.shape.masked) in
      (
        _,
        _,
        _,
        read more
            (get_elem?-eq-get_or q.queue (queue_idx q h k) 0 (queue_idx-lt q o.shape h k k_small)),
      )
  | no last ↦ let (a, b, d, e) = o.reader in (_, _, _, release (omega arith))
]

-- In a state that any number of producers and one consumer reach from a new queue of a size from 1
-- to 2 ^ 63, with fewer than 2 ^ 64 pointers enqueued so far: every producer `i`, and the
-- consumer, has a next step. So no store or load of theirs is out of range.
pub never_stuck :
    {size : ℕ} {s : System}
    → 0 < size
    → size ≤ 2 ^ 63
    → Reach size s
    → length s.log < 2 ^ 64
    → (i : ℕ)
    → ((q : MpscQueue) × (log : List ℕ) × (p : Pc) × Move s.queue s.log (s.producers i) q log p)
      × ((q : MpscQueue) × (received : List ℕ) × (c : ConsumerPc) × Take s.queue s.received
            s.consumer q received c)
never_stuck {size} {s} pos small r few i =
    let inv = Reach-Inv pos small r few in
    (Move_any inv.ordered (s.producers i) (inv.owner i), Take_any s.consumer inv.ordered)

-- In a state that any number of producers and one consumer reach from a new queue of a size from 1
-- to 2 ^ 63, with fewer than 2 ^ 64 pointers enqueued so far: when a producer `i` with a
-- reservation finds that the producers' tail is not yet at its start, another producer has a
-- reservation that starts at the tail.
pub no_deadlock :
    {size i h k : ℕ} {s : System} {mbufs : List ℕ}
    → 0 < size
    → size ≤ 2 ^ 63
    → Reach size s
    → length s.log < 2 ^ 64
    → s.producers i ≡ storing h mbufs k
    → s.queue.producer.tail ≢ h
    → (j : ℕ) × (i ≢ j)
      × (0 < length (batch (s.producers j)))
      × (first (s.producers j) ≡ s.queue.producer.tail)
unfolding first batch IsFresh
no_deadlock {size} {i} {h} {k} {s} {mbufs} pos small r few here before =
    let inv = Reach-Inv pos small r few in
    let own = subst (λ p. IsOwner s.queue s.log p) here (inv.owner i) in
    let low = own.above own.fresh in
    let (j, (from, to)) =
      inv.covered s.queue.producer.tail (omega arith)
        (omega (arith, before, low, own.below, own.fresh)) in
    let some_his : 0 < length (batch (s.producers j)) = omega arith in
    let at_tail : first (s.producers j) ≡ s.queue.producer.tail =
      omega (arith, (inv.owner j).above some_his) in
    let other : i ≢ j = λ e.
      before (sym at_tail ∙ ap (λ a. first (s.producers a)) (sym e) ∙ ap (λ p. first p) here) in
    (j, other, some_his, at_tail)
