-- ===== src/Mpsc/Create.antt =====
-- `MpscQueue::new` of framework/src/queues/mpsc_mbuf_queue.rs rounds the size up to a power of two.
use native.Mathlib.Nat.{one-le-pow, pow-le-pow_right}
use native.Mathlib.Decide.{ℕ_discrete}
use net_bricks.Prelude.{
  ℕ, ◌-◌, ◌*◌, ◌^◌, ◌≤◌, ◌<◌, ◌≡◌, refl, [], false, not, arith, bit_and, replicate,
  length-replicate, sub64, ◌==◌, if◌then◌else◌,
}
use net_bricks.Utils.{round_to_power_of_2}
use net_bricks.Utils.Rounding.{round_to_power_of_2_lem}
use net_bricks.RingBuffer.{RingBuffer}
use net_bricks.RingBuffer.Window.{IsValid, contents, bytes_from}
use net_bricks.RingBuffer.Create.{bit_and-pred}
use net_bricks.Mpsc.{new, new_mpsc_queue_pair_with_size}
use net_bricks.Mpsc.Fifo.{quiet}

-- A ring without bytes whose size is a power of two.
empty-IsValid :
    (slots k : ℕ)
    → slots ≡ 2 ^ k
    → k ≤ 63
    → IsValid
        (record { head = 0; tail = 0; size = slots; mask = sub64 slots 1; vec = replicate slots 0 })
empty-IsValid slots k e h =
    let pos = one-le-pow k 2 (omega arith) in
    let small = pow-le-pow_right {n = 2} (omega arith) {i = k} {j = 63} h in
    record {
      bits = k;
      power = e;
      small = h;
      masked = omega arith;
      stored = length-replicate slots 0;
      head_word = omega arith;
      tail_word = omega arith;
      room = omega arith;
    }

abbrev rounded : ℕ → ℕ
rounded size = if not (bit_and size (sub64 size 1) == 0) then round_to_power_of_2 size else size

rounded_lem :
    (size : ℕ)
    → 0 < size
    → size ≤ 2 ^ 63
    → (k : ℕ) × (k ≤ 63)
      × (rounded size ≡ 2 ^ k)
      × (size ≤ rounded size)
      × (rounded size < 2 * size)
rounded_lem size pos small =
    let pred : sub64 size 1 ≡ size - 1 = omega arith in
    rw pred (elim (ℕ_discrete (bit_and size (size - 1)) 0) [
      | yes e ↦
          let (k, l, pow) = bit_and-pred 64 size pos (omega arith) e in
          rw e (k, omega arith, pow, omega arith, omega arith)
      | no ne ↦
          let test : (bit_and size (size - 1) == 0) ≡ false = ground arith in
          rw test (round_to_power_of_2_lem size pos small)
    ])

-- The slots of a new queue.
pub new-IsValid :
    (size : ℕ)
    → 0 < size
    → size ≤ 2 ^ 63
    → IsValid (record {
      head = 0;
      tail = 0;
      size = (new size).slots;
      mask = (new size).mask;
      vec = (new size).queue;
    })
unfolding new
new-IsValid size pos small =
    let (k, l, pow, above, below) = rounded_lem size pos small in
    empty-IsValid (rounded size) k pow l

-- The queue of a new pair, for a size from 1 to 2 ^ 63, is valid and empty, with one producer and no
-- call under way, and has at least as many slots as asked for and less than twice as many.
pub new_mpsc_queue_pair_with_size_lem :
    (size : ℕ)
    → 0 < size
    → size ≤ 2 ^ 63
    → (r : RingBuffer) × (new_mpsc_queue_pair_with_size size ≡ quiet r 1)
      × (contents r ≡ [])
      × (size ≤ r.size)
      × (r.size < 2 * size)
      × IsValid r
unfolding new_mpsc_queue_pair_with_size new contents bytes_from
new_mpsc_queue_pair_with_size_lem size pos small =
    let (k, l, pow, above, below) = rounded_lem size pos small in
    (
      record {
        head = 0;
        tail = 0;
        size = (new size).slots;
        mask = (new size).mask;
        vec = (new size).queue;
      },
      refl,
      refl,
      above,
      below,
      new-IsValid size pos small,
    )
