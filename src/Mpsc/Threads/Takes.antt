-- ===== src/Mpsc/Threads/Takes.antt =====
-- A step of the consumer in framework/src/queues/mpsc_mbuf_queue.rs keeps the order of the queue and
-- the reservations of the producers.
use native.Mathlib.Decide.{dec_lt}
use net_bricks.Prelude.{
  ℕ, suc, ◌+◌, ◌-◌, ◌^◌, ◌≤◌, ◌<◌, ◌≡◌, refl, sym, ap, ◌∙◌, List, [], ◌∷◌, ◌++◌, some, arith,
  length, get_or, get_elem?, length-append, get_or-append_left, get_or-append_right, get_elem?-some,
  add64,
}
use net_bricks.Mpsc.{MpscQueue}
use net_bricks.Mpsc.Threads.{
  Pc, ConsumerPc, idle, ready, reading, Take, claimed, queue_idx, load_head, load_tail, empty,
  claim, read, release,
}
use net_bricks.Mpsc.Threads.Places.{queue_idx_lem}
use net_bricks.Mpsc.Threads.Frame.{IsFresh-frame}
use net_bricks.Mpsc.Threads.Invariant.{IsOwner, IsReader, IsOrdered}

module _ {q : MpscQueue} {log received : List ℕ} (few : length log < 2 ^ 64) where
  module _ {len h t : ℕ} (o : IsOrdered q log received (ready len h t))
      (some_there : 0 < claimed len h t) where
    waiting : IsReader q received (ready len h t)
    waiting = o.reader

    claimed-le : h + claimed len h t ≤ t
    unfolding IsReader
    claimed-le = let (a, b, d, e, f) = waiting in omega (arith, o.committed, o.all_logged)

    claim_next : add64 h (claimed len h t) ≡ h + claimed len h t
    unfolding IsReader
    claim_next =
        let (a, b, d, e, f) = waiting in omega (arith, claimed-le, o.committed, o.all_logged)

    claim-IsOrdered :
        IsOrdered
          (record q { consumer = record q.consumer { head = add64 h (claimed len h t) } })
          log
          received
          (reading h (claimed len h t) 0)
    unfolding IsReader
    claim-IsOrdered =
        let (a, b, d, e, f) = waiting in
        record {
          shape = o.shape;
          all_logged = o.all_logged;
          unread = o.unread;
          claimed = omega (arith, claim_next, claimed-le);
          taken = omega (arith, claim_next);
          committed = o.committed;
          room = o.room;
          reader = (omega arith, omega (arith, claim_next), omega arith, omega arith);
          prefix = o.prefix;
          kept = o.kept;
        }

  module _ {h n k : ℕ} (o : IsOrdered q log received (reading h n k)) where
    at_work :
        (q.consumer.tail ≡ h) × (q.consumer.head ≡ h + n) × (length received ≡ h + k) × (k ≤ n)
    unfolding IsReader
    at_work = o.reader

    read-IsOrdered :
        {m : ℕ}
        → k < n
        → get_elem? q.queue (queue_idx q h k) ≡ some m
        → IsOrdered q log (received ++ m ∷ []) (reading h n (suc k))
    unfolding IsReader
    read-IsOrdered {m} more there =
        let (a, b, d, e) = at_work in
        let longer : length (received ++ m ∷ []) ≡ suc (length received) =
          omega (arith, length-append received (m ∷ [])) in
        let small : k ≤ q.slots = omega (arith, o.claimed, o.committed, o.room, o.shape.masked) in
        let value : m ≡ get_or log (h + k) 0 =
          (get_elem?-some q.queue (queue_idx q h k) m 0 there).1
          ∙ ap (λ i. get_or q.queue i 0) (queue_idx_lem q o.shape h k small)
          ∙ o.kept (h + k) (omega arith) (omega (arith, o.claimed)) in
        record {
          shape = o.shape;
          all_logged = o.all_logged;
          unread = omega (arith, longer);
          claimed = o.claimed;
          taken = omega (arith, longer);
          committed = o.committed;
          room = o.room;
          reader = (a, b, omega (arith, longer), more);
          prefix = λ p l. elim (dec_lt p (length received)) [
            | yes before ↦ get_or-append_left received (m ∷ []) p 0 before ∙ o.prefix p before
            | no here ↦
                let last : p ≡ length received = omega (arith, longer) in
                let zero_left : p - length received ≡ 0 = omega (arith, last) in
                get_or-append_right received (m ∷ []) p 0 (omega arith)
                ∙ ap (λ i. get_or (m ∷ []) i 0) zero_left
                ∙ value
                ∙ ap (λ i. get_or log i 0) (sym d ∙ sym last)
          ];
          kept = λ p l u. o.kept p (omega (arith, longer)) u;
        }

    release_next : add64 h n ≡ h + n
    release_next = let (a, b, d, e) = at_work in omega (arith, o.claimed, o.committed, o.all_logged)

    release-IsOrdered :
        k ≡ n
        → IsOrdered
            (record q { consumer = record q.consumer { tail = add64 h n } })
            log
            received
            idle
    unfolding IsReader
    release-IsOrdered done =
        let (a, b, d, e) = at_work in
        record {
          shape = o.shape;
          all_logged = o.all_logged;
          unread = omega (arith, release_next);
          claimed = o.claimed;
          taken = o.taken;
          committed = o.committed;
          room = omega (arith, release_next, o.room);
          reader = (omega (arith, release_next), omega arith);
          prefix = o.prefix;
          kept = o.kept;
        }

-- A step that only loads a counter.
reader-IsOrdered :
    {q : MpscQueue} {log received : List ℕ} {c c' : ConsumerPc}
    → IsOrdered q log received c
    → IsReader q received c'
    → IsOrdered q log received c'
reader-IsOrdered o r = record {
  shape = o.shape;
  all_logged = o.all_logged;
  unread = o.unread;
  claimed = o.claimed;
  taken = o.taken;
  committed = o.committed;
  room = o.room;
  reader = r;
  prefix = o.prefix;
  kept = o.kept;
}

pub Take-IsOrdered :
    {q q' : MpscQueue} {log received received' : List ℕ} {c c' : ConsumerPc}
    → length log < 2 ^ 64
    → IsOrdered q log received c
    → Take q received c q' received' c'
    → IsOrdered q' log received' c'
unfolding IsReader
Take-IsOrdered few o (load_head len) = reader-IsOrdered o (o.reader.0, o.reader.1, refl)
Take-IsOrdered few o load_tail =
    let (a, b, d) = o.reader in reader-IsOrdered o (a, b, d, omega (arith, o.claimed), omega arith)
Take-IsOrdered few o (empty none_there) =
    let (a, b, d, e, f) = o.reader in reader-IsOrdered o (a, b)
Take-IsOrdered few o (claim some_there) = claim-IsOrdered few o some_there
Take-IsOrdered few o (read more there) = read-IsOrdered few o more there
Take-IsOrdered few o (release done) = release-IsOrdered few o done

pub Take-IsOwner :
    {q q' : MpscQueue} {log received received' : List ℕ} {c c' : ConsumerPc} {w : Pc}
    → length log < 2 ^ 64
    → IsOrdered q log received c
    → IsOwner q log w
    → Take q received c q' received' c'
    → IsOwner q' log w
Take-IsOwner few o own (load_head len) = own
Take-IsOwner few o own load_tail = own
Take-IsOwner few o own (empty none_there) = own
Take-IsOwner {q} {w} few o own (claim {len} {h} {t} some_there) = record {
  above = own.above;
  below = own.below;
  part = own.part;
  logged = own.logged;
  stored = own.stored;
  fresh =
      IsFresh-frame q
        (record q { consumer = record q.consumer { head = add64 h (claimed len h t) } }) w
        (omega arith) (omega arith) refl (λ pos e. e) own.fresh;
}
Take-IsOwner few o own (read more there) = own
Take-IsOwner {q} {w} few o own (release {h} {n} done) = record {
  above = own.above;
  below = own.below;
  part = own.part;
  logged = own.logged;
  stored = own.stored;
  fresh =
      IsFresh-frame q (record q { consumer = record q.consumer { tail = add64 h n } }) w
        (omega arith) (omega (arith, release_next few o, (at_work few o).0)) refl (λ pos e. e)
        own.fresh;
}

-- The consumer changes no counter of the producers.
pub Take-producer :
    {q q' : MpscQueue} {received received' : List ℕ} {c c' : ConsumerPc}
    → Take q received c q' received' c'
    → q'.producer ≡ q.producer
Take-producer (load_head len) = refl
Take-producer load_tail = refl
Take-producer (empty none_there) = refl
Take-producer (claim some_there) = refl
Take-producer (read more there) = refl
Take-producer (release done) = refl
