-- ===== src/Mpsc/Fifo.antt =====
-- The queue of framework/src/queues/mpsc_mbuf_queue.rs hands its pointers out in the order in which
-- they came, when no two calls overlap. It is a ring with its two pairs of counters together.
use mathlib.Core.List.{append-nil}
use native.Mathlib.Nat.{mod-lt}
use native.Mathlib.Decide.{dec_lt}
use net_bricks.Prelude.{
  ℕ, suc, ◌+◌, ◌-◌, ◌%◌, ◌≤◌, ◌<◌, ◌≡◌, refl, sym, ap, ◌∙◌, List, ◌++◌, true, false, min, arith,
  length, take, drop, length-take, length-drop, take_all, drop_all, write_slice, write_slice-nil,
  write_slice-take, length-write_slice, bit_and, add64, ltb, leb, ◌==◌,
}
use net_bricks.Prelude.Run.{returns}
use net_bricks.RingBuffer.{RingBuffer, available}
use net_bricks.RingBuffer.Window.{IsValid, contents, length-contents, size_pos, bit_and-mask}
use net_bricks.RingBuffer.Write.{wrapped_vec, placed}
use net_bricks.RingBuffer.Append.{
  free_room, placed-IsValid, seek_tail-IsValid, contents-placed-seek_tail,
}
use net_bricks.Mpsc.{
  MpscQueue, QueueMetadata, enqueue_mbufs, enqueue_sp, reserve, await, enqueue_mp, enqueue,
}
use net_bricks.Mpsc.Copies.{store_range_lem}

-- A queue that no call is using: the two counters of each side agree, and it is the ring `r`.
abbrev pub quiet : RingBuffer → ℕ → MpscQueue
quiet r n_producers = record {
  slots = r.size;
  mask = r.mask;
  producer = record { head = r.tail; tail = r.tail };
  consumer = record { head = r.head; tail = r.head };
  queue = r.vec;
  n_producers = n_producers;
}

enqueue_mbufs_lem :
    (q : MpscQueue) (start : ℕ) (src : List ℕ)
    → bit_and start q.mask ≡ start % q.slots
    → 0 < q.slots
    → length q.queue ≡ q.slots
    → length src ≤ q.slots
    → enqueue_mbufs q start (length src) src
      ≡ returns (record q { queue = wrapped_vec q.queue q.slots (start % q.slots) src })
unfolding enqueue_mbufs wrapped_vec
enqueue_mbufs_lem q start src masked pos stored fits =
    let i : ℕ = start % q.slots in
    let n : ℕ = length src in
    let first : ℕ = q.slots - i in
    let place = mod-lt start pos in
    elim (dec_lt (i + n) q.slots) [
      | yes inside ↦
          let test : leb q.slots (i + n) ≡ false = ground arith in
          let test' : ltb q.slots (i + n) ≡ false = ground arith in
          rw
            (
              masked,
              test,
              test',
              store_range_lem n i 0 src q.queue (omega arith) (omega arith),
              take_all n src (omega arith),
            )
            refl
      | no past ↦
          let test : leb q.slots (i + n) ≡ true = ground arith in
          let cut = write_slice-take i first q.queue src (omega arith) in
          let kept = length-write_slice i q.queue src in
          rw
            (
              masked,
              test,
              store_range_lem first i 0 src q.queue (omega arith) (omega arith),
              cut,
              store_range_lem (n - first) 0 first src (write_slice i q.queue src)
                  (omega (arith, kept)) (omega arith),
              take_all (n - first) (drop first src) (omega (arith, length-drop first src)),
            )
            (elim (dec_lt q.slots (i + n)) [
              | yes over ↦ let test' : ltb q.slots (i + n) ≡ true = ground arith in rw test' refl
              | no exact ↦
                  let test' : ltb q.slots (i + n) ≡ false = ground arith in
                  rw
                    (
                      test',
                      drop_all first src (omega arith),
                      write_slice-nil 0 (write_slice i q.queue src),
                    )
                    refl
            ])
    ]

module _ {r : RingBuffer} (v : IsValid r) (n_producers : ℕ) where
  -- the stores of an enqueue, once its slots are reserved
  stores :
      (producer : QueueMetadata) (n : ℕ) (got : List ℕ)
      → length got ≡ n
      → n ≤ r.size
      → enqueue_mbufs (record (quiet r n_producers) { producer = producer }) r.tail n got
        ≡ returns (record (quiet r n_producers) {
          producer = producer;
          queue = wrapped_vec r.vec r.size ((r.tail + 0) % r.size) got;
        })
  stores producer n got e h =
      let q : MpscQueue = record (quiet r n_producers) { producer = producer } in
      let z : r.tail ≡ r.tail + 0 = omega arith in
      ap (λ t. enqueue_mbufs q r.tail t got) (sym e)
      ∙ enqueue_mbufs_lem q r.tail got (bit_and-mask v r.tail) (size_pos v) v.stored
          (omega (arith, e))
      ∙ ap (λ t. returns (record q { queue = wrapped_vec r.vec r.size (t % r.size) got })) z

  -- What an enqueue leaves of the ring, once the pointers `got` are in.
  abbrev filled : List ℕ → RingBuffer
  filled got = record (placed r 0 got) { tail = add64 r.tail (length got) }

  -- How many pointers go in, and which.
  module _ (mbufs : List ℕ) where
    abbrev taken : ℕ
    taken = min (r.size - 1 - available r) (length mbufs)

    abbrev got : List ℕ
    got = take taken mbufs

    count : length got ≡ taken
    count = omega (arith, length-take taken mbufs)

    fits : available r + length got < r.size
    fits = omega (arith, count, v.room)

    few : taken ≤ r.size
    few = omega arith

    enqueue_sp_some :
        0 < taken
        → enqueue_sp (quiet r n_producers) mbufs ≡ returns (quiet (filled got) n_producers, taken)
    unfolding enqueue_sp
    enqueue_sp_some pos =
        let test : ltb 0 taken ≡ true = ground arith in
        let next : add64 r.tail (length got) ≡ add64 r.tail taken = ap (add64 r.tail) count in
        rw
          (
            free_room v,
            test,
            next,
            stores (record { head = add64 r.tail taken; tail = r.tail }) taken got count few,
          )
          refl

    enqueue_sp_none :
        taken ≡ 0 → enqueue_sp (quiet r n_producers) mbufs ≡ returns (quiet r n_producers, taken)
    unfolding enqueue_sp
    enqueue_sp_none e = rw (free_room v, e) refl

    enqueue_mp_some :
        (fuel : ℕ)
        → 0 < taken
        → enqueue_mp (suc fuel) (quiet r n_producers) mbufs
          ≡ returns (quiet (filled got) n_producers, taken)
    unfolding enqueue_mp reserve await
    enqueue_mp_some fuel pos =
        let test : ltb 0 taken ≡ true = ground arith in
        let zero_test : (taken == 0) ≡ false = ground arith in
        let same : (r.tail == r.tail) ≡ true = ground arith in
        let next : add64 r.tail (length got) ≡ add64 r.tail taken = ap (add64 r.tail) count in
        rw
          (
            free_room v,
            zero_test,
            same,
            test,
            next,
            stores (record { head = add64 r.tail taken; tail = r.tail }) taken got count few,
            same,
          )
          refl

    enqueue_mp_none :
        (fuel : ℕ)
        → taken ≡ 0
        → enqueue_mp (suc fuel) (quiet r n_producers) mbufs ≡ returns (quiet r n_producers, taken)
    unfolding enqueue_mp reserve
    enqueue_mp_none fuel e = rw (free_room v, e) refl

    -- With producers and no other call under way, an enqueue into a valid queue never panics and
    -- one round of each of its loops is enough, whether it takes the path for one producer or the
    -- one for several. It puts the first pointers of `mbufs` behind those in the queue, as many as
    -- there is room for with one slot kept free, says how many, and leaves a valid queue of the
    -- same size with no call under way.
    pub enqueue_lem :
        (fuel : ℕ)
        → 0 < n_producers
        → let w = min (r.size - 1 - length (contents r)) (length mbufs) in
          (r' : RingBuffer) × (enqueue (suc fuel) (quiet r n_producers) mbufs
            ≡ returns (quiet r' n_producers, w))
          × (r'.size ≡ r.size)
          × (contents r' ≡ contents r ++ take w mbufs)
          × IsValid r'
    unfolding enqueue
    enqueue_lem fuel pos =
        let some_producer : leb 1 n_producers ≡ true = ground arith in
        rw (length-contents r, some_producer)
          (elim (dec_lt 0 taken) [
            | yes h ↦ (
              filled got,
              ground (arith, enqueue_sp_some h, enqueue_mp_some fuel h),
              refl,
              contents-placed-seek_tail v got fits,
              seek_tail-IsValid (placed-IsValid v 0 got) (length got) fits,
            )
            | no h ↦
                let e : taken ≡ 0 = omega arith in
                (
                  r,
                  ground (arith, enqueue_sp_none e, enqueue_mp_none fuel e),
                  refl,
                  sym (append-nil (contents r)) ∙ ap (λ n. contents r ++ take n mbufs) (sym e),
                  v,
                )
          ])
