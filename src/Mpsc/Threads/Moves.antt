-- ===== src/Mpsc/Threads/Moves.antt =====
-- A step of a producer in framework/src/queues/mpsc_mbuf_queue.rs keeps the order of the queue, its
-- own reservation and those of the other threads.
pub mod Reserve
pub mod Store
pub mod Commit
pub mod Cover
use native.Mathlib.Decide.{dec_lt}
use net_bricks.Prelude.{
  ℕ, suc, ◌+◌, ◌-◌, ◌%◌, ◌^◌, ◌≤◌, ◌<◌, ◌≡◌, ◌≢◌, ◌⊎◌, inl, inr, refl, sym, ap, ◌∙◌, List, [], ◌++◌,
  some, min, arith, length, get_or, get_elem?, set, take, length-append, length-take, get_or-take,
  get_or-append_left, get_or-append_right, get_elem?-eq-get_or, add64, sub64,
}
use net_bricks.RingBuffer.Window.{IsValid, size_pos, size_le}
use net_bricks.Mpsc.{MpscQueue, QueueMetadata}
use net_bricks.Mpsc.Threads.{
  Pc, idle, calling, loaded, ready, storing, committing, ConsumerPc, Move, insert, queue_idx, call,
  load_head, load_tail, full, retry, reserve, store, wait, pass, commit,
}
use net_bricks.Mpsc.Threads.Places.{base, Holds, queue_idx_lem, set-Holds, set-base}
use net_bricks.Mpsc.Threads.Moves.Reserve.{
  reserve-IsOrdered, reserve-IsOwner, reserve-other, reserve-Apart,
}
use net_bricks.Mpsc.Threads.Moves.Store.{store-IsOrdered, store-IsOwner, store-other}
use net_bricks.Mpsc.Threads.Moves.Commit.{commit-IsOrdered, commit-IsOwner, commit-other}
use net_bricks.Mpsc.Threads.Invariant.{
  first, batch, stored_count, IsFresh, IsOwner, Apart, IsReader, IsOrdered,
}

-- The log only grows.
pub Move-grows :
    {q q' : MpscQueue} {log log' : List ℕ} {p p' : Pc}
    → Move q log p q' log' p'
    → length log ≤ length log'
Move-grows {q} {log} (reserve {mbufs} {h} {t} some_room here) =
    omega (arith, length-append log (take (insert q mbufs h t) mbufs))
Move-grows (call mbufs) = omega arith
Move-grows load_head = omega arith
Move-grows load_tail = omega arith
Move-grows (full none_in) = omega arith
Move-grows (retry some_room moved) = omega arith
Move-grows (store there within) = omega arith
Move-grows (wait all_in before) = omega arith
Move-grows (pass all_in here) = omega arith
Move-grows commit = omega arith

-- A thread without a reservation.
pub blank-IsOwner :
    {q : MpscQueue} {log : List ℕ} (p : Pc)
    → batch p ≡ []
    → stored_count p ≡ 0
    → first p ≡ 0
    → IsFresh q p
    → IsOwner q log p
blank-IsOwner p none zero_count zero_first f =
    let e : length (batch p) ≡ 0 = ap length none in
    record {
      above = λ pos. absurd (omega (arith, e));
      below = omega (arith, e);
      part = omega arith;
      logged = λ j l. absurd (omega (arith, e));
      stored = λ j l. absurd (omega arith);
      fresh = f;
    }

pub Move-IsOrdered :
    {q q' : MpscQueue} {log log' received : List ℕ} {c : ConsumerPc} {p p' : Pc}
    → IsOrdered q log received c
    → IsOwner q log p
    → length log' < 2 ^ 64
    → Move q log p q' log' p'
    → IsOrdered q' log' received c
Move-IsOrdered o own few (call mbufs) = o
Move-IsOrdered o own few load_head = o
Move-IsOrdered o own few load_tail = o
Move-IsOrdered o own few (full none_in) = o
Move-IsOrdered o own few (retry some_room moved) = o
Move-IsOrdered o own few (reserve some_room here) = reserve-IsOrdered o own few some_room here
Move-IsOrdered o own few (store there within) = store-IsOrdered o own there
Move-IsOrdered o own few (wait all_in before) = o
Move-IsOrdered o own few (pass all_in here) = o
Move-IsOrdered o own few commit = commit-IsOrdered o own few

pub Move-IsOwner :
    {q q' : MpscQueue} {log log' received : List ℕ} {c : ConsumerPc} {p p' : Pc}
    → IsOrdered q log received c
    → IsOwner q log p
    → length log' < 2 ^ 64
    → Move q log p q' log' p'
    → IsOwner q' log' p'
unfolding batch stored_count first IsFresh
Move-IsOwner o own few (call mbufs) = blank-IsOwner (calling mbufs) refl refl refl tt
Move-IsOwner {q} o own few (load_head {mbufs}) =
    blank-IsOwner (loaded mbufs q.producer.head) refl refl refl (omega arith)
Move-IsOwner {q} o own few (load_tail {mbufs} {h}) =
    blank-IsOwner (ready mbufs h q.consumer.tail) refl refl refl
      (own.fresh, omega arith, omega (arith, own.fresh, o.room))
Move-IsOwner o own few (full none_in) = blank-IsOwner idle refl refl refl tt
Move-IsOwner o own few (retry {mbufs} some_room moved) =
    blank-IsOwner (calling mbufs) refl refl refl tt
Move-IsOwner o own few (reserve some_room here) = reserve-IsOwner o own few some_room here
Move-IsOwner o own few (store there within) = store-IsOwner o own there
Move-IsOwner o own few (wait all_in before) = own
Move-IsOwner o own few (pass {mbufs} {h} {k} all_in here) = record {
  above = own.above;
  below = own.below;
  part = omega arith;
  logged = own.logged;
  stored = λ j l. own.stored j (omega (arith, all_in));
  fresh = (own.fresh, here);
}
Move-IsOwner o own few commit = commit-IsOwner o own few

-- Another thread `w`.
pub Move-other :
    {q q' : MpscQueue} {log log' received : List ℕ} {c : ConsumerPc} {p p' w : Pc}
    → IsOrdered q log received c
    → IsOwner q log p
    → length log' < 2 ^ 64
    → IsOwner q log w
    → Apart p w
    → Move q log p q' log' p'
    → IsOwner q' log' w
Move-other o own few other a (call mbufs) = other
Move-other o own few other a load_head = other
Move-other o own few other a load_tail = other
Move-other o own few other a (full none_in) = other
Move-other o own few other a (retry some_room moved) = other
Move-other o own few other a (reserve some_room here) = reserve-other o own few some_room here other
Move-other o own few other a (store there within) = store-other o own there other a
Move-other o own few other a (wait all_in before) = other
Move-other o own few other a (pass all_in here) = other
Move-other o own few other a commit = commit-other o own few other a

pub Move-Apart :
    {q q' : MpscQueue} {log log' received : List ℕ} {c : ConsumerPc} {p p' w : Pc}
    → IsOrdered q log received c
    → IsOwner q log p
    → length log' < 2 ^ 64
    → IsOwner q log w
    → Apart p w
    → Move q log p q' log' p'
    → Apart p' w
unfolding batch first
Move-Apart o own few other a (call mbufs) = λ pos. elim pos [ ]
Move-Apart o own few other a load_head = λ pos. elim pos [ ]
Move-Apart o own few other a load_tail = λ pos. elim pos [ ]
Move-Apart o own few other a (full none_in) = λ pos. elim pos [ ]
Move-Apart o own few other a (retry some_room moved) = λ pos. elim pos [ ]
Move-Apart o own few other a (reserve some_room here) = reserve-Apart o own few some_room here other
Move-Apart o own few other a (store there within) = a
Move-Apart o own few other a (wait all_in before) = a
Move-Apart o own few other a (pass all_in here) = a
Move-Apart o own few other a commit = λ pos. elim pos [ ]
