-- ===== src/Mpsc/Threads/Moves/Cover.antt =====
-- Every position from the producers' tail to their head in framework/src/queues/mpsc_mbuf_queue.rs
-- belongs to some thread.
use native.Mathlib.Decide.{dec_lt}
use net_bricks.Prelude.{
  ℕ, suc, ◌+◌, ◌^◌, ◌≤◌, ◌<◌, ◌≡◌, refl, ◌⊎◌, inl, inr, List, arith, length, length-take,
}
use net_bricks.Mpsc.{MpscQueue}
use net_bricks.Mpsc.Threads.{
  Pc, idle, calling, loaded, ready, storing, committing, ConsumerPc, Move, insert, call, load_head,
  load_tail, full, retry, reserve, store, wait, pass, commit,
}
use net_bricks.Mpsc.Threads.Moves.Reserve.{reserve-IsOwner}
use net_bricks.Mpsc.Threads.Moves.Commit.{commit_next, commit_turn}
use net_bricks.Mpsc.Threads.Invariant.{first, batch, IsOwner, IsOrdered, Covers}

-- After its step a thread has a position, or another had it and has it still.
abbrev pub Kept : MpscQueue → Pc → Pc → ℕ → Type 0
Kept q p p' x = Covers p' x ⊎ ((q.producer.tail ≤ x) × (x < q.producer.head) × (¬ Covers p x))

-- A step that neither reserves nor commits.
same :
    (q : MpscQueue) (p p' : Pc) (x : ℕ)
    → q.producer.tail ≤ x
    → x < q.producer.head
    → first p' ≡ first p
    → length (batch p') ≡ length (batch p)
    → Kept q p p' x
same q p p' x l u e b = elim (dec_lt x (first p)) [
  | yes before ↦ inr (l, u, λ w. omega (arith, w.0))
  | no after ↦ elim (dec_lt x (first p + length (batch p))) [
    | yes inside ↦ inl (omega arith, omega arith)
    | no past ↦ inr (l, u, λ w. omega (arith, w.1))
  ]
]

pub Move-Kept :
    {q q' : MpscQueue} {log log' received : List ℕ} {c : ConsumerPc} {p p' : Pc}
    → IsOrdered q log received c
    → IsOwner q log p
    → length log' < 2 ^ 64
    → Move q log p q' log' p'
    → (x : ℕ) → q'.producer.tail ≤ x
    → x < q'.producer.head
    → Kept q p p' x
unfolding first batch
Move-Kept {q} o own few (call mbufs) x l u = same q idle (calling mbufs) x l u refl refl
Move-Kept {q} o own few (load_head {mbufs}) x l u =
    same q (calling mbufs) (loaded mbufs q.producer.head) x l u refl refl
Move-Kept {q} o own few (load_tail {mbufs} {h}) x l u =
    same q (loaded mbufs h) (ready mbufs h q.consumer.tail) x l u refl refl
Move-Kept {q} o own few (full {mbufs} {h} {t} none_in) x l u =
    same q (ready mbufs h t) idle x l u refl refl
Move-Kept {q} o own few (retry {mbufs} {h} {t} some_room moved) x l u =
    same q (ready mbufs h t) (calling mbufs) x l u refl refl
Move-Kept {q} {log} o own few (reserve {mbufs} {h} {t} some_room here) x l u =
    let mine = reserve-IsOwner o own few some_room here in
    elim (dec_lt x q.producer.head) [
      | yes old ↦ inr (l, old, λ w. omega (arith, w.0, w.1))
      | no new ↦
          let len = length-take (insert q mbufs h t) mbufs in
          inl (omega (arith, here), omega (arith, len, mine.below))
    ]
Move-Kept {q} o own few (store {mbufs} {h} {k} there within) x l u =
    same q (storing h mbufs k) (storing h mbufs (suc k)) x l u refl refl
Move-Kept {q} o own few (wait {mbufs} {h} {k} all_in before) x l u =
    same q (storing h mbufs k) (storing h mbufs k) x l u refl refl
Move-Kept {q} o own few (pass {mbufs} {h} {k} all_in here) x l u =
    same q (storing h mbufs k) (committing h mbufs) x l u refl refl
Move-Kept {q} o own few (commit {mbufs} {h}) x l u =
    let next = commit_next o own few in
    let turn = commit_turn o own few in
    inr (omega (arith, turn.1, next), u, λ w. omega (arith, next, w.1))
