-- ===== src/Mpsc/Threads/Invariant.antt =====
-- What holds at all times of the queue of framework/src/queues/mpsc_mbuf_queue.rs: where the four
-- counters stand, which slots each thread has reserved, and what the slots hold.
use net_bricks.Prelude.{ℕ, ◌+◌, ◌≤◌, ◌<◌, ◌≡◌, ◌≢◌, ◌⊎◌, List, [], length, get_or}
use net_bricks.RingBuffer.Window.{IsValid}
use net_bricks.Mpsc.{MpscQueue}
use net_bricks.Mpsc.Threads.{
  Pc, idle, loaded, ready, storing, committing, ConsumerPc, reading, System,
}
use net_bricks.Mpsc.Threads.Places.{base, Holds}

-- The first position that a thread has reserved.
unfoldable pub first : Pc → ℕ
first (storing h mbufs k) = h
first (committing h mbufs) = h
first _ = 0

-- The pointers it has reserved slots for.
unfoldable pub batch : Pc → List ℕ
batch (storing h mbufs k) = mbufs
batch (committing h mbufs) = mbufs
batch _ = []

-- How many of these are stored.
unfoldable pub stored_count : Pc → ℕ
stored_count (storing h mbufs k) = k
stored_count (committing h mbufs) = length mbufs
stored_count _ = 0

-- What the loaded counters of a thread say about those of the queue.
unfoldable pub IsFresh : MpscQueue → Pc → Type 0
IsFresh q (loaded mbufs h) = h ≤ q.producer.head
IsFresh q (ready mbufs h t) = (h ≤ q.producer.head) × (t ≤ q.consumer.tail) × (h ≤ t + q.mask)
IsFresh q (storing h mbufs k) = (0 < length mbufs)
IsFresh q (committing h mbufs) = (0 < length mbufs) × (q.producer.tail ≡ h)
IsFresh q _ = Unit

-- One thread: its reservation lies between the tail and the head, the log has its pointers there,
-- and those it has stored are in their slots.
pub record IsOwner (q : MpscQueue) (log : List ℕ) (p : Pc) : Type 0 where
  pub above : 0 < length (batch p) → q.producer.tail ≤ first p
  pub below : first p + length (batch p) ≤ q.producer.head
  pub part : stored_count p ≤ length (batch p)
  pub logged : (j : ℕ) → j < length (batch p) → get_or (batch p) j 0 ≡ get_or log (first p + j) 0
  pub stored : (j : ℕ) → j < stored_count p → Holds q log (first p + j)
  pub fresh : IsFresh q p

-- Two reservations have no position in common.
abbrev pub Apart : Pc → Pc → Type 0
Apart p p' =
    0 < length (batch p)
    → 0 < length (batch p')
    → (first p + length (batch p) ≤ first p') ⊎ (first p' + length (batch p') ≤ first p)

unfoldable pub IsReader : MpscQueue → List ℕ → ConsumerPc → Type 0
IsReader q received (loaded len h) =
    (q.consumer.tail ≡ q.consumer.head)
    × (length received ≡ q.consumer.head)
    × (h ≡ q.consumer.head)
IsReader q received (ready len h t) =
    (q.consumer.tail ≡ q.consumer.head)
    × (length received ≡ q.consumer.head)
    × (h ≡ q.consumer.head)
    × (h ≤ t)
    × (t ≤ q.producer.tail)
IsReader q received (reading h n k) =
    (q.consumer.tail ≡ h) × (q.consumer.head ≡ h + n) × (length received ≡ h + k) × (k ≤ n)
IsReader q received idle = (q.consumer.tail ≡ q.consumer.head) × (length received ≡ q.consumer.head)

-- The queue, what has come out of it, and the consumer.
pub record IsOrdered (q : MpscQueue) (log received : List ℕ) (c : ConsumerPc) : Type 0 where
  pub shape : IsValid (base q)
  pub all_logged : q.producer.head ≡ length log
  pub unread : q.consumer.tail ≤ length received
  pub claimed : q.consumer.head ≤ q.producer.tail
  pub taken : length received ≤ q.consumer.head
  pub committed : q.producer.tail ≤ q.producer.head
  pub room : q.producer.head ≤ q.consumer.tail + q.mask
  pub reader : IsReader q received c
  pub prefix : (p : ℕ) → p < length received → get_or received p 0 ≡ get_or log p 0
  pub kept : (p : ℕ) → length received ≤ p → p < q.producer.tail → Holds q log p

-- Position `x` is among those that a thread has reserved.
abbrev pub Covers : Pc → ℕ → Type 0
Covers p x = (first p ≤ x) × (x < first p + length (batch p))

pub record Inv (s : System) : Type 0 where
  pub ordered : IsOrdered s.queue s.log s.received s.consumer
  pub owner : (i : ℕ) → IsOwner s.queue s.log (s.producers i)
  pub apart : (i j : ℕ) → i ≢ j → Apart (s.producers i) (s.producers j)
  pub covered :
      (x : ℕ)
      → s.queue.producer.tail ≤ x
      → x < s.queue.producer.head
      → (i : ℕ) × Covers (s.producers i) x
