-- ===== src/Mpsc.antt =====
-- The multi-producer queue of framework/src/queues/mpsc_mbuf_queue.rs, run by one thread. An atomic
-- field is a field, an mbuf pointer a number. The two loops of `enqueue_mp` take fuel: they only go
-- round when another thread is in the queue, which `Mpsc.Threads` is about.
mod Tests
pub mod Copies
pub mod Fifo
pub mod Drain
pub mod Create
pub mod Threads
use net_bricks.Prelude.{
  ℕ, zero, suc, ◌+◌, ◌-◌, ◌%◌, ◌^◌, List, [], ◌∷◌, Bool, min, bit_and, length, get_elem?, set, take,
  replicate, add64, sub64, leb, ltb, ◌==◌, not, if◌then◌else◌,
}
use net_bricks.Errors.{Result, ok}
use net_bricks.Prelude.Run.{Run, returns, panics, out_of_fuel, bind, or_panic, check}
use net_bricks.Utils.{round_to_power_of_2}

pub record QueueMetadata : Type 0 where
  pub head : ℕ
  pub tail : ℕ

pub record MpscQueue : Type 0 where
  pub slots : ℕ
  pub mask : ℕ
  pub producer : QueueMetadata
  pub consumer : QueueMetadata
  pub queue : List ℕ
  pub n_producers : ℕ

abbrev untouched : QueueMetadata
untouched = record { head = 0; tail = 0 }

unfoldable pub new : ℕ → MpscQueue
new size =
    let slots = if not (bit_and size (sub64 size 1) == 0) then round_to_power_of_2 size else size in
    record {
      slots = slots;
      mask = sub64 slots 1;
      producer = untouched;
      consumer = untouched;
      queue = replicate slots 0;
      n_producers = 0;
    }

abbrev pub reference_producers : MpscQueue → MpscQueue
reference_producers q = record q { n_producers = add64 q.n_producers 1 }

-- The queue that the two ends of a new pair share, with its one producer.
unfoldable pub new_mpsc_queue_pair_with_size : ℕ → MpscQueue
new_mpsc_queue_pair_with_size size = reference_producers (new size)

abbrev pub default_queue_size : ℕ
default_queue_size = 1024

unfoldable pub new_mpsc_queue_pair : MpscQueue
new_mpsc_queue_pair = new_mpsc_queue_pair_with_size default_queue_size

-- A clone of a producer shares the queue.
unfoldable pub clone : MpscQueue → MpscQueue
clone q = reference_producers q

infixl 5 ◌>>=◌ ◌>>◌
abbrev ◌>>=◌ {ℓ κ} : {A : Type ℓ} {B : Type κ} → Run A → (A → Run B) → Run B
m >>= f = bind m f

abbrev ◌>>◌ {ℓ κ} : {A : Type ℓ} {B : Type κ} → Run A → Run B → Run B
m >> k = bind m λ _. k

-- `n` rounds of a loop of `enqueue_mbufs`, from `queue_idx` and `mbuf_idx` on.
unfoldable pub store_range : ℕ → ℕ → ℕ → List ℕ → List ℕ → Run (List ℕ)
store_range zero queue_idx mbuf_idx mbufs queue = returns queue
store_range (suc n) queue_idx mbuf_idx mbufs queue =
    check (ltb queue_idx (length queue)) >> or_panic (get_elem? mbufs mbuf_idx) >>= λ m.
    store_range n (suc queue_idx) (suc mbuf_idx) mbufs (set queue queue_idx m)

unfoldable pub enqueue_mbufs : MpscQueue → ℕ → ℕ → List ℕ → Run MpscQueue
enqueue_mbufs q start enqueue mbufs =
    let queue_idx = bit_and start q.mask in
    let first = q.slots - queue_idx in
    let round = store_range first queue_idx 0 mbufs q.queue >>= λ queue.
    store_range (enqueue - first) 0 first mbufs queue in
    (if leb q.slots (queue_idx + enqueue)
      then round
      else store_range enqueue queue_idx 0 mbufs q.queue)
    >>= λ queue. returns (record q { queue = queue })

-- The slots that a producer may take.
abbrev pub free : MpscQueue → ℕ
free q = sub64 (add64 q.mask q.consumer.tail) q.producer.head

unfoldable pub enqueue_sp : MpscQueue → List ℕ → Run (MpscQueue × ℕ)
enqueue_sp q mbufs =
    let producer_head = q.producer.head in
    let insert = min (free q) (length mbufs) in
    let producer_next = add64 producer_head insert in
    let reserved = record q { producer = record q.producer { head = producer_next } } in
    let commit = enqueue_mbufs reserved producer_head insert (take insert mbufs) >>= λ w.
    returns (record w { producer = record w.producer { tail = producer_next } }, insert) in
    if ltb 0 insert then commit else returns (q, 0)

-- The first loop of `enqueue_mp`: the reservation by compare and exchange. It gives the head that
-- was read and the number of slots.
unfoldable pub reserve : ℕ → MpscQueue → ℕ → Run (MpscQueue × ℕ × ℕ)
reserve zero q len = out_of_fuel
reserve (suc fuel) q len =
    let producer_head = q.producer.head in
    let insert = min (free q) len in
    let again = reserve fuel q len in
    let taken = record q { producer = record q.producer { head = add64 producer_head insert } } in
    if insert == 0
    then returns (q, producer_head, insert)
    else (if q.producer.head == producer_head
        then returns (taken, producer_head, insert)
        else again)

-- Its second loop: the wait for the writes before.
unfoldable pub await : ℕ → MpscQueue → ℕ → Run (Unit {0})
await zero q producer_head = out_of_fuel
await (suc fuel) q producer_head =
    let again = await fuel q producer_head in
    if q.producer.tail == producer_head then returns tt else again

unfoldable pub enqueue_mp : ℕ → MpscQueue → List ℕ → Run (MpscQueue × ℕ)
enqueue_mp fuel q mbufs = reserve fuel q (length mbufs) >>= λ r.
    let (reserved, producer_head, insert) = r in
    let end = add64 producer_head insert in
    let commit = enqueue_mbufs reserved producer_head insert (take insert mbufs) >>= λ w.
    await fuel w producer_head
    >> returns (record w { producer = record w.producer { tail = end } }, insert) in
    if ltb 0 insert then commit else returns (reserved, 0)

-- The assertion is that there are producers.
unfoldable pub enqueue : ℕ → MpscQueue → List ℕ → Run (MpscQueue × ℕ)
enqueue fuel q mbufs =
    check (leb 1 q.n_producers)
    >> (if q.n_producers == 1 then enqueue_sp q mbufs else enqueue_mp fuel q mbufs)

unfoldable pub enqueue_one : ℕ → MpscQueue → ℕ → Run (MpscQueue × Bool)
enqueue_one fuel q mbuf = enqueue fuel q (mbuf ∷ []) >>= λ r. returns (r.0, r.1 == 1)

-- `n` rounds of a loop of `dequeue_mbufs`
unfoldable pub load_range : ℕ → ℕ → ℕ → List ℕ → List ℕ → Run (List ℕ)
load_range zero queue_idx mbuf_idx queue mbufs = returns mbufs
load_range (suc n) queue_idx mbuf_idx queue mbufs =
    check (ltb mbuf_idx (length mbufs)) >> or_panic (get_elem? queue queue_idx) >>= λ m.
    load_range n (suc queue_idx) (suc mbuf_idx) queue (set mbufs mbuf_idx m)

unfoldable pub dequeue_mbufs : MpscQueue → ℕ → ℕ → List ℕ → Run (List ℕ)
dequeue_mbufs q start dequeue mbufs =
    let queue_idx = bit_and start q.mask in
    let first = q.slots - queue_idx in
    let round = load_range first queue_idx 0 q.queue mbufs >>= λ out.
    load_range (dequeue - first) 0 first q.queue out in
    if leb q.slots (queue_idx + dequeue)
    then round
    else load_range dequeue queue_idx 0 q.queue mbufs

unfoldable pub dequeue : MpscQueue → List ℕ → Run (MpscQueue × List ℕ × ℕ)
dequeue q mbufs =
    let consumer_head = q.consumer.head in
    let available_entries = sub64 q.producer.tail consumer_head in
    let dequeue = min (length mbufs) available_entries in
    let consumer_next = add64 consumer_head dequeue in
    let reserved = record q { consumer = record q.consumer { head = consumer_next } } in
    let commit = dequeue_mbufs reserved consumer_head dequeue mbufs >>= λ out. returns (
      record reserved { consumer = record reserved.consumer { tail = consumer_next } },
      out,
      dequeue,
    ) in
    if ltb 0 dequeue then commit else returns (q, mbufs, dequeue)

-- The consumer as a port; the count becomes a `u32`.
unfoldable pub recv : MpscQueue → List ℕ → Run (MpscQueue × List ℕ × Result ℕ)
recv q mbufs = dequeue q mbufs >>= λ r. returns (r.0, r.1, ok (r.2 % 2 ^ 32))
