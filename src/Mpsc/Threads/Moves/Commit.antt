-- ===== src/Mpsc/Threads/Moves/Commit.antt =====
-- The commit of `enqueue_mp` of framework/src/queues/mpsc_mbuf_queue.rs.
use mathlib.Core.Path.{subst}
use native.Mathlib.Decide.{dec_lt}
use net_bricks.Prelude.{ℕ, ◌+◌, ◌-◌, ◌^◌, ◌≤◌, ◌<◌, ◌≡◌, refl, List, arith, length, add64}
use net_bricks.Mpsc.{MpscQueue}
use net_bricks.Mpsc.Threads.{Pc, idle, committing, ConsumerPc}
use net_bricks.Mpsc.Threads.Places.{Holds}
use net_bricks.Mpsc.Threads.Frame.{IsFresh-frame, IsReader-frame}
use net_bricks.Mpsc.Threads.Invariant.{
  first, batch, stored_count, IsFresh, IsOwner, Apart, IsOrdered,
}

module _ {q : MpscQueue} {log received : List ℕ} {c : ConsumerPc} {mbufs : List ℕ} {h : ℕ}
    (o : IsOrdered q log received c) (own : IsOwner q log (committing h mbufs))
    (few : length log < 2 ^ 64) where
  abbrev committed : MpscQueue
  committed = record q { producer = record q.producer { tail = add64 h (length mbufs) } }

  pub commit_turn : (0 < length mbufs) × (q.producer.tail ≡ h)
  unfolding IsFresh
  commit_turn = own.fresh

  ends : h + length mbufs ≤ q.producer.head
  unfolding first batch
  ends = own.below

  pub commit_next : add64 h (length mbufs) ≡ h + length mbufs
  commit_next = omega (arith, ends, o.all_logged)

  pub commit-IsOrdered : IsOrdered committed log received c
  unfolding first batch stored_count
  commit-IsOrdered = record {
    shape = o.shape;
    all_logged = o.all_logged;
    unread = o.unread;
    claimed = omega (arith, o.claimed, commit_turn.1, commit_next);
    taken = o.taken;
    committed = omega (arith, ends, commit_next);
    room = o.room;
    reader =
        IsReader-frame q committed received c refl refl (omega (arith, commit_turn.1, commit_next))
          o.reader;
    prefix = o.prefix;
    kept = λ p l u. elim (dec_lt p q.producer.tail) [
      | yes before ↦ o.kept p l before
      | no here ↦
          let e : h + (p - h) ≡ p = omega (arith, commit_turn.1) in
          subst (λ t. Holds q log t) e
            (own.stored (p - h) (omega (arith, commit_turn.1, commit_next)))
    ];
  }

  pub commit-IsOwner : IsOwner committed log idle
  unfolding first batch stored_count IsFresh
  commit-IsOwner = record {
    above = λ none. elim none [ ];
    below = omega arith;
    part = omega arith;
    logged = λ j l. elim l [ ];
    stored = λ j l. elim l [ ];
    fresh = tt;
  }

  pub commit-other :
      {p : Pc} → IsOwner q log p → Apart (committing h mbufs) p → IsOwner committed log p
  unfolding first batch
  commit-other {p} w a = record {
    above = λ pos.
        let low = w.above pos in
        omega (arith, a commit_turn.0 pos, low, commit_turn.1, commit_next);
    below = w.below;
    part = w.part;
    logged = w.logged;
    stored = w.stored;
    fresh =
        IsFresh-frame q committed p (omega arith) (omega arith) refl
          (λ pos e. absurd (omega (arith, a commit_turn.0 pos, commit_turn.0, commit_turn.1, e)))
          w.fresh;
  }
