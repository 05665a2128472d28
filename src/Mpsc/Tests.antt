-- ===== src/Mpsc/Tests.antt =====
-- Runs of framework/src/queues/mpsc_mbuf_queue.rs: a queue of four slots that goes round its end, and
-- two producers that get in each other's way.
use native.Mathlib.Decide.{ℕ_discrete}
use net_bricks.Prelude.{
  ℕ, zero, suc, ◌<◌, ◌≡◌, ◌≢◌, refl, List, [], ◌∷◌, ◌++◌, arith, length, take, drop,
}
use net_bricks.Prelude.Run.{returns}
use net_bricks.RingBuffer.{RingBuffer}
use net_bricks.RingBuffer.Window.{IsValid, contents, bytes_from}
use net_bricks.Mpsc.{MpscQueue, new, enqueue, dequeue}
use net_bricks.Mpsc.Fifo.{quiet, enqueue_lem}
use net_bricks.Mpsc.Drain.{dequeue_lem}
use net_bricks.Mpsc.Threads.{
  Pc, ConsumerPc, idle, Move, Take, call, load_head, load_tail, retry, reserve, store, pass, commit,
  claim, read, release, System, produce, consume, Reach, start, then,
}
use net_bricks.Mpsc.Threads.Invariant.{first, batch}
use net_bricks.Mpsc.Threads.Safety.{delivered_in_order, ring, none_lost, never_stuck, no_deadlock}

abbrev held : RingBuffer
held = record { head = 3; tail = 5; size = 4; mask = 3; vec = 12 ∷ 0 ∷ 0 ∷ 11 ∷ [] }

held-IsValid : IsValid held
held-IsValid = record {
  bits = 2;
  power = refl;
  small = omega arith;
  masked = refl;
  stored = refl;
  head_word = omega arith;
  tail_word = omega arith;
  room = omega arith;
}

held-contents : contents held ≡ 11 ∷ 12 ∷ []
unfolding contents bytes_from
held-contents = refl

-- Two producers and three pointers, where one fits.
enqueue_lem_example :
    (r' : RingBuffer) × (enqueue 1 (quiet held 2) (13 ∷ 14 ∷ 15 ∷ []) ≡ returns (quiet r' 2, 1))
    × (r'.size ≡ 4)
    × (contents r' ≡ contents held ++ 13 ∷ [])
    × IsValid r'
unfolding contents bytes_from
enqueue_lem_example = enqueue_lem held-IsValid 2 (13 ∷ 14 ∷ 15 ∷ []) 0 (omega arith)

dequeue_lem_example :
    (r' : RingBuffer) × (dequeue (quiet held 2) (0 ∷ 0 ∷ 0 ∷ [])
      ≡ returns (quiet r' 2, take 2 (contents held) ++ drop 2 (0 ∷ 0 ∷ 0 ∷ []), 2))
    × (r'.size ≡ 4)
    × (contents r' ≡ drop 2 (contents held))
    × IsValid r'
unfolding contents bytes_from
dequeue_lem_example = dequeue_lem held-IsValid 2 (0 ∷ 0 ∷ 0 ∷ [])

abbrev one : List ℕ
one = 7 ∷ []

abbrev two : List ℕ
two = 8 ∷ 9 ∷ []

-- Producer 1 reserves slots between the loads and the exchange of producer 0, which then waits.
unfoldable waiting : (s : System) × Reach 4 s
unfolding new ℕ_discrete
waiting =
    let a =
      then (then (then start (produce 0 (call one))) (produce 0 load_head)) (produce 0 load_tail) in
    let b =
      then (then (then a (produce 1 (call two))) (produce 1 load_head)) (produce 1 load_tail) in
    let c = then b (produce 1 (reserve {mbufs = two} {t = 0} (omega arith) refl)) in
    let d =
      then
        (then (then c (produce 0 (retry {mbufs = one} {h = 0} {t = 0} (omega arith) (omega arith))))
          (produce 0 load_head))
        (produce 0 load_tail) in
    let e =
      then (then d (produce 0 (reserve {mbufs = one} {t = 0} (omega arith) refl)))
        (produce 0 (store {mbufs = one} {h = 2} {k = 0} {m = 7} refl (omega arith))) in
    (_, e)

-- Both producers are done, and the consumer has read the first two pointers.
unfoldable done : (s : System) × Reach 4 s
unfolding waiting new ℕ_discrete
done =
    let a =
      then
        (then waiting.1
          (produce 1 (store {mbufs = two} {h = 0} {k = 0} {m = 8} refl (omega arith))))
        (produce 1 (store {mbufs = two} {h = 0} {k = 1} {m = 9} refl (omega arith))) in
    let b =
      then (then a (produce 1 (pass {mbufs = two} {h = 0} {k = 2} refl refl)))
        (produce 1 (commit {mbufs = two} {h = 0})) in
    let c =
      then (then b (produce 0 (pass {mbufs = one} {h = 2} {k = 1} refl refl)))
        (produce 0 (commit {mbufs = one} {h = 2})) in
    let d =
      then (then (then c (consume (load_head 2))) (consume load_tail))
        (consume (claim {len = 2} {h = 0} {t = 3} (omega arith))) in
    let e =
      then (then d (consume (read {h = 0} {n = 2} {k = 0} {m = 8} (omega arith) refl)))
        (consume (read {h = 0} {n = 2} {k = 1} {m = 9} (omega arith) refl)) in
    (_, then e (consume (release refl)))

delivered_in_order_example : done.0.received ≡ take 2 done.0.log
unfolding done
delivered_in_order_example = delivered_in_order (omega arith) (omega arith) done.1 (omega arith)

done_producers : (i : ℕ) → done.0.producers i ≡ idle
unfolding done waiting ℕ_discrete
done_producers zero = refl
done_producers (suc zero) = refl
done_producers (suc (suc i)) = ground arith

none_lost_example : done.0.received ++ contents (ring done.0.queue) ≡ 8 ∷ 9 ∷ 7 ∷ []
unfolding done
none_lost_example = none_lost (omega arith) (omega arith) done.1 (omega arith) done_producers refl

never_stuck_example :
    ((q : MpscQueue) × (log : List ℕ) × (p : Pc) × Move waiting.0.queue waiting.0.log
        (waiting.0.producers 1)
        q
        log
        p)
    × ((q : MpscQueue) × (received : List ℕ) × (c : ConsumerPc) × Take waiting.0.queue
          waiting.0.received waiting.0.consumer q received c)
unfolding waiting
never_stuck_example = never_stuck (omega arith) (omega arith) waiting.1 (omega arith) 1

no_deadlock_example :
    (j : ℕ) × (0 ≢ j)
    × (0 < length (batch (waiting.0.producers j)))
    × (first (waiting.0.producers j) ≡ 0)
unfolding waiting
no_deadlock_example =
    no_deadlock {i = 0} {h = 2} {k = 1} (omega arith) (omega arith) waiting.1 (omega arith) refl
      (omega arith)
