-- ===== src/Mpsc/Copies.antt =====
-- The loops of framework/src/queues/mpsc_mbuf_queue.rs that copy pointers, as copies of slices.
use net_bricks.Prelude.{
  ℕ, zero, suc, ◌+◌, ◌≤◌, ◌≡◌, sym, ap, ◌∙◌, List, true, arith, length, set, take, drop, length-set,
  ltb, write_slice, write_slice-nil, write_slice-cons, split_at,
}
use net_bricks.Prelude.Run.{returns}
use net_bricks.Mpsc.{store_range, load_range}

pub store_range_lem :
    (n queue_idx mbuf_idx : ℕ) (mbufs queue : List ℕ)
    → queue_idx + n ≤ length queue
    → mbuf_idx + n ≤ length mbufs
    → store_range n queue_idx mbuf_idx mbufs queue
      ≡ returns (write_slice queue_idx queue (take n (drop mbuf_idx mbufs)))
unfolding store_range
store_range_lem zero q m mbufs queue h k = sym (ap returns (write_slice-nil q queue))
store_range_lem (suc n) q m mbufs queue h k =
    let (x, there, split) = split_at mbufs m (omega arith) in
    let within : ltb q (length queue) ≡ true = ground arith in
    rw (within, there, split)
      (store_range_lem n (suc q) (suc m) mbufs (set queue q x) (omega (arith, length-set queue q x))
          (omega arith)
        ∙ sym (ap returns (write_slice-cons q queue (take n (drop (suc m) mbufs)) x (omega arith))))

pub load_range_lem :
    (n queue_idx mbuf_idx : ℕ) (queue mbufs : List ℕ)
    → queue_idx + n ≤ length queue
    → mbuf_idx + n ≤ length mbufs
    → load_range n queue_idx mbuf_idx queue mbufs
      ≡ returns (write_slice mbuf_idx mbufs (take n (drop queue_idx queue)))
unfolding load_range
load_range_lem zero q m queue mbufs h k = sym (ap returns (write_slice-nil m mbufs))
load_range_lem (suc n) q m queue mbufs h k =
    let (x, there, split) = split_at queue q (omega arith) in
    let within : ltb m (length mbufs) ≡ true = ground arith in
    rw (within, there, split)
      (load_range_lem n (suc q) (suc m) queue (set mbufs m x) (omega arith)
          (omega (arith, length-set mbufs m x))
        ∙ sym (ap returns (write_slice-cons m mbufs (take n (drop (suc q) queue)) x (omega arith))))
