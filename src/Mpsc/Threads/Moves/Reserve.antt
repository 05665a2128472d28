-- ===== src/Mpsc/Threads/Moves/Reserve.antt =====
-- The reservation of slots in `enqueue_mp` of framework/src/queues/mpsc_mbuf_queue.rs.
use net_bricks.Prelude.{
  ℕ, ◌+◌, ◌-◌, ◌^◌, ◌≤◌, ◌<◌, ◌≡◌, inr, refl, sym, ap, ◌∙◌, List, ◌++◌, arith, length, get_or, take,
  length-append, length-take, get_or-append_left, get_or-append_right, add64,
}
use net_bricks.RingBuffer.Window.{size_pos, size_le}
use net_bricks.Mpsc.{MpscQueue}
use net_bricks.Mpsc.Threads.{Pc, ready, storing, ConsumerPc, insert}
use net_bricks.Mpsc.Threads.Frame.{append-Holds, IsFresh-frame, IsReader-frame}
use net_bricks.Mpsc.Threads.Invariant.{
  first, batch, stored_count, IsFresh, IsOwner, Apart, IsOrdered,
}

module _ {q : MpscQueue} {log received : List ℕ} {c : ConsumerPc} {mbufs : List ℕ} {h t : ℕ}
    (o : IsOrdered q log received c) (own : IsOwner q log (ready mbufs h t))
    (few : length (log ++ take (insert q mbufs h t) mbufs) < 2 ^ 64)
    (some_room : 0 < insert q mbufs h t) (here : q.producer.head ≡ h) where
  abbrev n : ℕ
  n = insert q mbufs h t

  abbrev got : List ℕ
  got = take n mbufs

  abbrev reserved : MpscQueue
  reserved = record q { producer = record q.producer { head = add64 h n } }

  length-got : length got ≡ n
  length-got = omega (arith, length-take n mbufs)

  longer : length (log ++ got) ≡ length log + n
  longer = omega (arith, length-append log got, length-got)

  next : add64 h n ≡ h + n
  next = omega (arith, longer, o.all_logged)

  loads : (h ≤ q.producer.head) × (t ≤ q.consumer.tail) × (h ≤ t + q.mask)
  unfolding IsFresh
  loads = own.fresh

  within : h + n ≤ t + q.mask
  within =
      let (low, old, room) = loads in
      omega (
        arith,
        size_le o.shape,
        size_pos o.shape,
        o.shape.masked,
        o.all_logged,
        o.unread,
        o.claimed,
        o.taken,
        o.committed,
        longer,
      )

  pub reserve-IsOrdered : IsOrdered reserved (log ++ got) received c
  reserve-IsOrdered =
      let (low, old, room) = loads in
      record {
        shape = o.shape;
        all_logged = omega (arith, next, longer, o.all_logged);
        unread = o.unread;
        claimed = o.claimed;
        taken = o.taken;
        committed = omega (arith, next, o.committed);
        room = omega (arith, next, within);
        reader = IsReader-frame q reserved received c refl refl (omega arith) o.reader;
        prefix = λ p l.
            o.prefix p l
            ∙ sym (
                get_or-append_left log got p 0
                  (omega (arith, o.taken, o.claimed, o.committed, o.all_logged)));
        kept = λ p l k.
            append-Holds q log got p (omega (arith, o.committed, o.all_logged)) (o.kept p l k);
      }

  pub reserve-IsOwner : IsOwner reserved (log ++ got) (storing h got 0)
  unfolding first batch stored_count IsFresh
  reserve-IsOwner = record {
    above = λ pos. omega (arith, o.committed);
    below = omega (arith, next, length-got);
    part = omega arith;
    logged = λ j l.
        let e : length log + j - length log ≡ j = omega arith in
        ap (λ i. get_or got i 0) (sym e)
        ∙ sym (get_or-append_right log got (length log + j) 0 (omega arith))
        ∙ ap (λ i. get_or (log ++ got) (i + j) 0) (sym o.all_logged ∙ here);
    stored = λ j l. elim l [ ];
    fresh = omega (arith, length-got);
  }

  pub reserve-other : {p : Pc} → IsOwner q log p → IsOwner reserved (log ++ got) p
  reserve-other {p} w = record {
    above = w.above;
    below = omega (arith, w.below, next);
    part = w.part;
    logged = λ j l.
        w.logged j l
        ∙ sym (get_or-append_left log got (first p + j) 0 (omega (arith, w.below, o.all_logged)));
    stored = λ j l.
        append-Holds q log got (first p + j) (omega (arith, w.below, w.part, o.all_logged))
          (w.stored j l);
    fresh =
        IsFresh-frame q reserved p (omega (arith, next)) (omega arith) refl (λ pos e. e) w.fresh;
  }

  pub reserve-Apart : {p : Pc} → IsOwner q log p → Apart (storing h got 0) p
  unfolding first batch
  reserve-Apart w pos pos' = inr (omega (arith, w.below, here))
