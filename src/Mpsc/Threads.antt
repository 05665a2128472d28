-- ===== src/Mpsc/Threads.antt =====
-- The queue of framework/src/queues/mpsc_mbuf_queue.rs with any number of threads in `enqueue_mp`
-- and one in `dequeue`. A step is one atomic access of one thread, with what the thread computes up
-- to its next access; accesses take place in one order for all threads. `log` and `received` are no
-- part of the code: they record the pointers in the order in which slots were reserved for them,
-- and the pointers read so far.
pub mod Places
pub mod Invariant
pub mod Frame
pub mod Moves
pub mod Takes
pub mod Reachable
pub mod Safety
use mathlib.Core.Logic.{ite}
use native.Mathlib.Decide.{ℕ_discrete}
use net_bricks.Prelude.{
  ℕ, suc, ◌+◌, ◌-◌, ◌<◌, ◌≡◌, ◌≢◌, List, [], ◌∷◌, ◌++◌, some, min, bit_and, length, get_elem?, set,
  take, add64, sub64, ltb, if◌then◌else◌,
}
use net_bricks.Mpsc.{MpscQueue, QueueMetadata, new}

-- Where a thread is in `enqueue_mp`, with the local variables that it still needs.
pub data Pc : Type 0 where
  idle : Pc
  calling : (mbufs : List ℕ) → Pc
  loaded : (mbufs : List ℕ) (producer_head : ℕ) → Pc
  ready : (mbufs : List ℕ) (producer_head consumer_tail : ℕ) → Pc
  -- `mbuf_idx` pointers of those that fit are stored
  storing : (producer_head : ℕ) (mbufs : List ℕ) (mbuf_idx : ℕ) → Pc
  committing : (producer_head : ℕ) (mbufs : List ℕ) → Pc

-- Where the thread is in `dequeue`.
pub data ConsumerPc : Type 0 where
  idle : ConsumerPc
  loaded : (len consumer_head : ℕ) → ConsumerPc
  ready : (len consumer_head producer_tail : ℕ) → ConsumerPc
  reading : (consumer_head dequeue mbuf_idx : ℕ) → ConsumerPc

-- The slot that the loops of `enqueue_mbufs` and `dequeue_mbufs` are at after `mbuf_idx` rounds.
abbrev pub queue_idx : MpscQueue → ℕ → ℕ → ℕ
queue_idx q start mbuf_idx =
    let idx = bit_and start q.mask + mbuf_idx in if ltb idx q.slots then idx else idx - q.slots

abbrev pub insert : MpscQueue → List ℕ → ℕ → ℕ → ℕ
insert q mbufs producer_head consumer_tail =
    min (sub64 (add64 q.mask consumer_tail) producer_head) (length mbufs)

pub data Move : MpscQueue → List ℕ → Pc → MpscQueue → List ℕ → Pc → Type 0 where
  call : {q : MpscQueue} {log : List ℕ} (mbufs : List ℕ) → Move q log idle q log (calling mbufs)
  load_head :
      {q : MpscQueue} {log mbufs : List ℕ}
      → Move q log (calling mbufs) q log (loaded mbufs q.producer.head)
  load_tail :
      {q : MpscQueue} {log mbufs : List ℕ} {h : ℕ}
      → Move q log (loaded mbufs h) q log (ready mbufs h q.consumer.tail)
  full :
      {q : MpscQueue} {log mbufs : List ℕ} {h t : ℕ}
      → insert q mbufs h t ≡ 0
      → Move q log (ready mbufs h t) q log idle
  -- the compare and exchange fails
  retry :
      {q : MpscQueue} {log mbufs : List ℕ} {h t : ℕ}
      → 0 < insert q mbufs h t
      → q.producer.head ≢ h
      → Move q log (ready mbufs h t) q log (calling mbufs)
  reserve :
      {q : MpscQueue} {log mbufs : List ℕ} {h t : ℕ}
      → 0 < insert q mbufs h t
      → q.producer.head ≡ h
      → Move q log
          (ready mbufs h t)
          (record q { producer = record q.producer { head = add64 h (insert q mbufs h t) } })
          (log ++ take (insert q mbufs h t) mbufs)
          (storing h (take (insert q mbufs h t) mbufs) 0)
  store :
      {q : MpscQueue} {log mbufs : List ℕ} {h k m : ℕ}
      → get_elem? mbufs k ≡ some m
      → queue_idx q h k < length q.queue
      → Move q log
          (storing h mbufs k)
          (record q { queue = set q.queue (queue_idx q h k) m })
          log
          (storing h mbufs (suc k))
  wait :
      {q : MpscQueue} {log mbufs : List ℕ} {h k : ℕ}
      → k ≡ length mbufs
      → q.producer.tail ≢ h
      → Move q log (storing h mbufs k) q log (storing h mbufs k)
  pass :
      {q : MpscQueue} {log mbufs : List ℕ} {h k : ℕ}
      → k ≡ length mbufs
      → q.producer.tail ≡ h
      → Move q log (storing h mbufs k) q log (committing h mbufs)
  commit :
      {q : MpscQueue} {log mbufs : List ℕ} {h : ℕ}
      → Move q log
          (committing h mbufs)
          (record q { producer = record q.producer { tail = add64 h (length mbufs) } })
          log
          idle

abbrev pub claimed : ℕ → ℕ → ℕ → ℕ
claimed len consumer_head producer_tail = min len (sub64 producer_tail consumer_head)

pub data Take : MpscQueue → List ℕ → ConsumerPc → MpscQueue → List ℕ → ConsumerPc → Type 0 where
  load_head :
      {q : MpscQueue} {received : List ℕ} (len : ℕ)
      → Take q received idle q received (loaded len q.consumer.head)
  load_tail :
      {q : MpscQueue} {received : List ℕ} {len h : ℕ}
      → Take q received (loaded len h) q received (ready len h q.producer.tail)
  empty :
      {q : MpscQueue} {received : List ℕ} {len h t : ℕ}
      → claimed len h t ≡ 0
      → Take q received (ready len h t) q received idle
  claim :
      {q : MpscQueue} {received : List ℕ} {len h t : ℕ}
      → 0 < claimed len h t
      → Take q received
          (ready len h t)
          (record q { consumer = record q.consumer { head = add64 h (claimed len h t) } })
          received
          (reading h (claimed len h t) 0)
  read :
      {q : MpscQueue} {received : List ℕ} {h n k m : ℕ}
      → k < n
      → get_elem? q.queue (queue_idx q h k) ≡ some m
      → Take q received (reading h n k) q (received ++ m ∷ []) (reading h n (suc k))
  release :
      {q : MpscQueue} {received : List ℕ} {h n k : ℕ}
      → k ≡ n
      → Take q received
          (reading h n k)
          (record q { consumer = record q.consumer { tail = add64 h n } })
          received
          idle

pub record System : Type 0 where
  pub queue : MpscQueue
  pub log : List ℕ
  pub received : List ℕ
  pub producers : ℕ → Pc
  pub consumer : ConsumerPc

abbrev pub update {ℓ} : {A : Type ℓ} → (ℕ → A) → ℕ → A → ℕ → A
update f i a j = ite (ℕ_discrete i j) a (f j)

pub data Step : System → System → Type 0 where
  produce :
      {s : System} {q : MpscQueue} {log : List ℕ} {pc : Pc} (i : ℕ)
      → Move s.queue s.log (s.producers i) q log pc
      → Step s (record s { queue = q; log = log; producers = update s.producers i pc })
  consume :
      {s : System} {q : MpscQueue} {received : List ℕ} {pc : ConsumerPc}
      → Take s.queue s.received s.consumer q received pc
      → Step s (record s { queue = q; received = received; consumer = pc })

-- Before any thread has come.
abbrev pub initial : ℕ → System
initial size = record {
  queue = new size;
  log = [];
  received = [];
  producers = λ i. idle;
  consumer = idle;
}

pub data Reach (size : ℕ) : System → Type 0 where
  start : Reach size (initial size)
  then : {s t : System} → Reach size s → Step s t → Reach size t
