-- ===== src/Mpsc/Threads/Reachable.antt =====
-- The invariant of the queue of framework/src/queues/mpsc_mbuf_queue.rs in every reachable state.
use mathlib.Core.Logic.{ite}
use mathlib.Core.Path.{subst}
use native.Mathlib.Decide.{ℕ_discrete}
use net_bricks.Prelude.{
  ℕ, ◌^◌, ◌≤◌, ◌<◌, ◌≡◌, ◌≢◌, inl, inr, refl, sym, ap, ◌∙◌, List, arith, length,
}
use net_bricks.Mpsc.{MpscQueue, QueueMetadata, new}
use net_bricks.Mpsc.Create.{new-IsValid}
use net_bricks.Mpsc.Threads.{
  Pc, ConsumerPc, idle, Move, Take, System, Step, produce, consume, update, initial, Reach, start,
  then,
}
use net_bricks.Mpsc.Threads.Invariant.{
  first, batch, stored_count, IsFresh, IsOwner, IsReader, Apart, Covers, Inv,
}
use net_bricks.Mpsc.Threads.Moves.{
  Move-grows, Move-IsOrdered, Move-IsOwner, Move-other, Move-Apart, blank-IsOwner,
}
use net_bricks.Mpsc.Threads.Moves.Cover.{Move-Kept}
use net_bricks.Mpsc.Threads.Takes.{Take-IsOrdered, Take-IsOwner, Take-producer}

-- A property of every thread after thread `i` has moved to `p`.
update-all :
    (P : Pc → Type 0) (pc : ℕ → Pc) (i : ℕ) (p : Pc)
    → P p
    → ((j : ℕ) → i ≢ j → P (pc j))
    → (j : ℕ) → P (update pc i p j)
update-all P pc i p here there j = elim (ℕ_discrete i j) as (λ d. P (ite d p (pc j))) [
  | yes e ↦ here
  | no ne ↦ there j ne
]

update_self : (pc : ℕ → Pc) (i : ℕ) (p : Pc) → update pc i p i ≡ p
update_self pc i p = elim (ℕ_discrete i i) as (λ d. ite d p (pc i) ≡ p) [
  | yes e ↦ refl
  | no ne ↦ absurd (ne refl)
]

update_other : (pc : ℕ → Pc) (i : ℕ) (p : Pc) (j : ℕ) → i ≢ j → update pc i p j ≡ pc j
update_other pc i p j other = elim (ℕ_discrete i j) as (λ d. ite d p (pc j) ≡ pc j) [
  | yes e ↦ absurd (other e)
  | no ne ↦ refl
]

Apart-symm : (p p' : Pc) → Apart p p' → Apart p' p
Apart-symm p p' a pos pos' = elim (a pos' pos) [ inl h ↦ inr h | inr h ↦ inl h ]

initial-Inv : (size : ℕ) → 0 < size → size ≤ 2 ^ 63 → Inv (initial size)
unfolding new first batch stored_count IsFresh IsReader
initial-Inv size pos small = record {
  ordered = record {
    shape = new-IsValid size pos small;
    all_logged = refl;
    unread = omega arith;
    claimed = omega arith;
    taken = omega arith;
    committed = omega arith;
    room = omega arith;
    reader = (refl, refl);
    prefix = λ p l. elim l [ ];
    kept = λ p l u. elim u [ ];
  };
  owner = λ i. blank-IsOwner idle refl refl refl tt;
  apart = λ i j ne here. elim here [ ];
  covered = λ x l u. elim u [ ];
}

module _ {s : System} (inv : Inv s) where
  produced :
      {q : MpscQueue} {log : List ℕ} {p : Pc} (i : ℕ)
      → length log < 2 ^ 64
      → Move s.queue s.log (s.producers i) q log p
      → Inv (record s { queue = q; log = log; producers = update s.producers i p })
  produced {q} {log} {p} i few mv =
      let o = inv.ordered in
      let own = inv.owner i in
      let others =
        λ (j : ℕ) (ne : i ≢ j). Move-Apart o own few (inv.owner j) (inv.apart i j ne) mv in
      record {
        ordered = Move-IsOrdered o own few mv;
        owner =
            update-all (IsOwner q log) s.producers i p (Move-IsOwner o own few mv)
              λ j ne. Move-other o own few (inv.owner j) (inv.apart i j ne) mv;
        apart = λ a b ne.
            elim (ℕ_discrete i a)
              as (λ d. Apart (ite d p (s.producers a)) (update s.producers i p b)) [
                | yes e ↦ elim (ℕ_discrete i b) as (λ d. Apart p (ite d p (s.producers b))) [
                  | yes e' ↦ absurd (ne (sym e ∙ e'))
                  | no other ↦ others b other
                ]
                | no moved ↦
                    elim (ℕ_discrete i b)
                      as (λ d. Apart (s.producers a) (ite d p (s.producers b))) [
                        | yes e' ↦ Apart-symm p (s.producers a) (others a moved)
                        | no other ↦ inv.apart a b ne
                      ]
              ];
        covered = λ x l u. elim (Move-Kept o own few mv x l u) [
          | inl mine ↦ (i, subst (λ w. Covers w x) (sym (update_self s.producers i p)) mine)
          | inr (low, high, left) ↦
              let (j, his) = inv.covered x low high in
              let ne : i ≢ j = λ e. left (subst (λ k. Covers (s.producers k) x) (sym e) his) in
              (j, subst (λ w. Covers w x) (sym (update_other s.producers i p j ne)) his)
        ];
      }

  consumed :
      {q : MpscQueue} {received : List ℕ} {c : ConsumerPc}
      → length s.log < 2 ^ 64
      → Take s.queue s.received s.consumer q received c
      → Inv (record s { queue = q; received = received; consumer = c })
  consumed few tk = record {
    ordered = Take-IsOrdered few inv.ordered tk;
    owner = λ i. Take-IsOwner few inv.ordered (inv.owner i) tk;
    apart = inv.apart;
    covered = λ x l u.
        let e = Take-producer tk in
        inv.covered x (omega (arith, ap (λ m. QueueMetadata.tail m) e))
          (omega (arith, ap (λ m. QueueMetadata.head m) e));
  }

Step-grows : {s t : System} → Step s t → length s.log ≤ length t.log
Step-grows (produce i mv) = Move-grows mv
Step-grows (consume tk) = omega arith

Step-Inv : {s t : System} → Inv s → length t.log < 2 ^ 64 → Step s t → Inv t
Step-Inv inv few (produce i mv) = produced inv i few mv
Step-Inv inv few (consume tk) = consumed inv few tk

pub Reach-Inv :
    {size : ℕ} {s : System}
    → 0 < size
    → size ≤ 2 ^ 63
    → Reach size s
    → length s.log < 2 ^ 64
    → Inv s
Reach-Inv {size} pos small start few = initial-Inv size pos small
Reach-Inv pos small (then r step) few =
    Step-Inv (Reach-Inv pos small r (omega (arith, Step-grows step))) few step
