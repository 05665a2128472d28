-- ===== src/Mpsc/Threads/Frame.antt =====
-- What a change of the counters of a queue of framework/src/queues/mpsc_mbuf_queue.rs leaves true.
use net_bricks.Prelude.{ℕ, ◌≤◌, ◌<◌, ◌≡◌, sym, ◌∙◌, List, ◌++◌, arith, length, get_or-append_left}
use net_bricks.Mpsc.{MpscQueue}
use net_bricks.Mpsc.Threads.{
  Pc, idle, calling, loaded, ready, storing, committing, ConsumerPc, reading,
}
use net_bricks.Mpsc.Threads.Places.{Holds}
use net_bricks.Mpsc.Threads.Invariant.{first, batch, IsFresh, IsReader}

-- A longer log still has what it had.
pub append-Holds :
    (q : MpscQueue) (log xs : List ℕ) (p : ℕ)
    → p < length log
    → Holds q log p
    → Holds q (log ++ xs) p
append-Holds q log xs p h e = e ∙ sym (get_or-append_left log xs p 0 h)

-- The producers' counters only grow, and a thread that has waited for its turn keeps it.
pub IsFresh-frame :
    (q q' : MpscQueue) (p : Pc)
    → q.producer.head ≤ q'.producer.head
    → q.consumer.tail ≤ q'.consumer.tail
    → q'.mask ≡ q.mask
    → (0 < length (batch p) → q.producer.tail ≡ first p → q'.producer.tail ≡ first p)
    → IsFresh q p
    → IsFresh q' p
unfolding IsFresh first batch
IsFresh-frame q q' idle head tail mask turn f = tt
IsFresh-frame q q' (calling mbufs) head tail mask turn f = tt
IsFresh-frame q q' (loaded mbufs h) head tail mask turn f = omega arith
IsFresh-frame q q' (ready mbufs h t) head tail mask turn f = (omega arith, omega arith, omega arith)
IsFresh-frame q q' (storing h mbufs k) head tail mask turn f = f
IsFresh-frame q q' (committing h mbufs) head tail mask turn f = (f.0, turn f.0 f.1)

-- The consumer reads no counter of the producers but their tail.
pub IsReader-frame :
    (q q' : MpscQueue) (received : List ℕ) (c : ConsumerPc)
    → q'.consumer.head ≡ q.consumer.head
    → q'.consumer.tail ≡ q.consumer.tail
    → q.producer.tail ≤ q'.producer.tail
    → IsReader q received c
    → IsReader q' received c
unfolding IsReader
IsReader-frame q q' received idle head tail h (a, b) = (omega arith, omega arith)
IsReader-frame q q' received (loaded len at) head tail h (a, b, d) =
    (omega arith, omega arith, omega arith)
IsReader-frame q q' received (ready len at to) head tail h (a, b, d, e, f) =
    (omega arith, omega arith, omega arith, omega arith, omega arith)
IsReader-frame q q' received (reading at n k) head tail h (a, b, d, e) =
    (omega arith, omega arith, omega arith, omega arith)
