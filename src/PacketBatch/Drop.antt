-- ===== src/PacketBatch/Drop.antt =====
-- Removing packets from a batch (framework/src/operators/packet_batch.rs): what stays, in its
-- order, and what is freed.
use native.Mathlib.Decide.{ℕ_discrete}
use net_bricks.Prelude.{
  ℕ, zero, suc, ◌+◌, ◌^◌, ◌≤◌, ◌<◌, ◌≡◌, refl, sym, ap, ap₂, ◌∙◌, List, [], ◌∷◌, ◌++◌, some, true,
  false, length, get_elem?, set, take, drop, length-set, split_at, leb, ◌==◌, arith,
}
use net_bricks.Prelude.Run.{returns, bind}
use net_bricks.PacketBatch.{
  PacketBatch, array, move_down, drop_loop, free_dropped, drop_packets_stable,
}

append_nil : (xs : List ℕ) → xs ++ [] ≡ xs
append_nil [] = refl
append_nil (x ∷ xs) = ap (λ t. x ∷ t) (append_nil xs)

-- A batch within its capacity, with no packets left to free.
pub record IsValid (b : PacketBatch) : Type 0 where
  pub within : b.len ≤ length b.slots
  pub addressable : length b.slots < 2 ^ 63
  pub freed : b.scratch ≡ []

take-set : (xs : List ℕ) (i v : ℕ) → i < length xs → take (suc i) (set xs i v) ≡ take i xs ++ v ∷ []
take-set [] i v h = elim h [ ]
take-set (x ∷ xs) zero v h = refl
take-set (x ∷ xs) (suc i) v h = ap (λ t. x ∷ t) (take-set xs i v (omega arith))

drop-set : (xs : List ℕ) (i j v : ℕ) → i < j → drop j (set xs i v) ≡ drop j xs
drop-set [] i j v h = refl
drop-set (x ∷ xs) zero zero v h = absurd (omega arith)
drop-set (x ∷ xs) zero (suc j) v h = refl
drop-set (x ∷ xs) (suc i) zero v h = absurd (omega arith)
drop-set (x ∷ xs) (suc i) (suc j) v h = drop-set xs i j v (omega arith)

append_assoc : (xs ys zs : List ℕ) → (xs ++ ys) ++ zs ≡ xs ++ (ys ++ zs)
append_assoc [] ys zs = refl
append_assoc (x ∷ xs) ys zs = ap (λ t. x ∷ t) (append_assoc xs ys zs)

-- Moving pointers down appends them to the ones below the target.
pub move_down_lem :
    (n orig new : ℕ) (slots : List ℕ)
    → orig + n ≤ length slots
    → new ≤ orig
    → (slots' : List ℕ) × (move_down n orig new slots ≡ returns slots')
      × (length slots' ≡ length slots)
      × (take (new + n) slots' ≡ take new slots ++ take n (drop orig slots))
unfolding move_down
move_down_lem zero orig new slots h k = (
  slots,
  refl,
  refl,
  ap (λ (t : ℕ). take t slots) (omega arith) ∙ sym (append_nil (take new slots)),
)
move_down_lem (suc n) orig new slots h k =
    let (m, there, split) = split_at slots orig (omega arith) in
    let len = length-set slots new m in
    let (slots', run, same, kept) =
      move_down_lem n (suc orig) (suc new) (set slots new m) (omega arith) (omega arith) in
    (
      slots',
      rw there run,
      same ∙ len,
      ap (λ (t : ℕ). take t slots') (omega arith)
          ∙ kept
          ∙ ap₂ (λ a b. a ++ take n b) (take-set slots new m (omega arith))
              (drop-set slots new (suc orig) m (omega arith))
          ∙ append_assoc (take new slots) (m ∷ []) (take n (drop (suc orig) slots))
          ∙ sym (ap (λ t. take new slots ++ take (suc n) t) split),
    )

-- The packets that stay and the ones that are dropped, by their indices counted from `i` on.
unfoldable pub kept : ℕ → List ℕ → List ℕ → List ℕ
kept i idxes [] = []
kept i [] (x ∷ xs) = x ∷ xs
kept i (k ∷ ks) (x ∷ xs) = elim (i == k) [
  | true ↦ kept (suc i) ks xs
  | false ↦ x ∷ kept (suc i) (k ∷ ks) xs
]

unfoldable pub dropped : ℕ → List ℕ → List ℕ → List ℕ
dropped i idxes [] = []
dropped i [] (x ∷ xs) = []
dropped i (k ∷ ks) (x ∷ xs) = elim (i == k) [
  | true ↦ x ∷ dropped (suc i) ks xs
  | false ↦ dropped (suc i) (k ∷ ks) xs
]

-- Indices in order, from `i` on and before `end`.
unfoldable pub Ascending : ℕ → List ℕ → ℕ → Type 0
Ascending i [] end = i ≤ end
Ascending i (k ∷ ks) end = (i ≤ k) × (k < end) × Ascending (suc k) ks end

pub Ascending-cast :
    (i j d e : ℕ) (ks : List ℕ) → i ≡ j → d ≡ e → Ascending i ks d → Ascending j ks e
unfolding Ascending
Ascending-cast i j d e [] p q a = omega (arith, p, q, a)
Ascending-cast i j d e (k ∷ ks) p q (a, b, c) =
    (omega (arith, p, a), omega (arith, q, b), Ascending-cast (suc k) (suc k) d e ks refl q c)

pub kept_all : (i : ℕ) (xs : List ℕ) → kept i [] xs ≡ xs
unfolding kept
kept_all i [] = refl
kept_all i (x ∷ xs) = refl

pub dropped_none : (i : ℕ) (xs : List ℕ) → dropped i [] xs ≡ []
unfolding dropped
dropped_none i [] = refl
dropped_none i (x ∷ xs) = refl

free_dropped_lem :
    (mbuf_free_bulk : List ℕ → ℕ) (b : PacketBatch) (gone : List ℕ)
    → mbuf_free_bulk gone ≡ 0
    → free_dropped mbuf_free_bulk b gone ≡ (record b { scratch = [] }, some (length gone))
unfolding free_dropped
free_dropped_lem mbuf_free_bulk b [] f = refl
free_dropped_lem mbuf_free_bulk b (m ∷ gone) f = rw f refl

pub step_hit :
    (i k x : ℕ) (ks xs : List ℕ)
    → (i == k) ≡ true
    → (kept i (k ∷ ks) (x ∷ xs) ≡ kept (suc i) ks xs)
      × (dropped i (k ∷ ks) (x ∷ xs) ≡ x ∷ dropped (suc i) ks xs)
unfolding kept dropped
step_hit i k x ks xs e = (rw (kept, e) refl, rw (dropped, e) refl)

pub step_miss :
    (i k x : ℕ) (ks xs : List ℕ)
    → (i == k) ≡ false
    → (kept i (k ∷ ks) (x ∷ xs) ≡ x ∷ kept (suc i) (k ∷ ks) xs)
      × (dropped i (k ∷ ks) (x ∷ xs) ≡ dropped (suc i) (k ∷ ks) xs)
unfolding kept dropped
step_miss i k x ks xs e = (rw (kept, e) refl, rw (dropped, e) refl)

-- How the loop ends, from `orig` on with `n` packets to go.
record Ends (n orig new : ℕ) (idxes slots scratch : List ℕ) : Type 0 where
  slots' : List ℕ
  new' : ℕ
  run :
      drop_loop n orig new idxes slots scratch
      ≡ returns (slots', new', scratch ++ dropped orig idxes (take n (drop orig slots)), [])
  same : length slots' ≡ length slots
  low : new' ≤ orig + n
  all : take new' slots' ≡ take new slots ++ kept orig idxes (take n (drop orig slots))

module _ {n orig new t m : ℕ} {ts slots scratch : List ℕ} (there : get_elem? slots orig ≡ some m)
    (split : drop orig slots ≡ m ∷ drop (suc orig) slots) where
  drop_hit :
      orig ≡ t
      → Ends n (suc orig) new ts slots (scratch ++ m ∷ [])
      → Ends (suc n) orig new (t ∷ ts) slots scratch
  unfolding drop_loop
  drop_hit e r =
      let hit : (orig == t) ≡ true = ground arith in
      let met : leb orig t ≡ true = ground arith in
      let rest : List ℕ = take n (drop (suc orig) slots) in
      let step = step_hit orig t m ts rest hit in
      record {
        slots' = r.slots';
        new' = r.new';
        run =
            rw (met, there, hit, split, step.1)
              (r.run
                ∙ ap (λ z. returns (r.slots', r.new', z, []))
                    (append_assoc scratch (m ∷ []) (dropped (suc orig) ts rest)));
        same = r.same;
        low = omega (arith, r.low);
        all = rw (split, step.0) r.all;
      }

  drop_miss :
      orig < t
      → new ≤ orig
      → orig < length slots
      → Ends n (suc orig) (suc new) (t ∷ ts) (set slots new m) scratch
      → Ends (suc n) orig new (t ∷ ts) slots scratch
  unfolding drop_loop
  drop_miss lt k h r =
      let miss : (orig == t) ≡ false = ground arith in
      let met : leb orig t ≡ true = ground arith in
      let rest : List ℕ = take n (drop (suc orig) slots) in
      let beyond = drop-set slots new (suc orig) m (omega arith) in
      let step = step_miss orig t m ts rest miss in
      record {
        slots' = r.slots';
        new' = r.new';
        run =
            rw (met, there, miss, split, step.1)
              (r.run
                ∙ ap
                    (λ z.
                      returns
                        (r.slots', r.new', scratch ++ dropped (suc orig) (t ∷ ts) (take n z), []))
                    beyond);
        same = r.same ∙ length-set slots new m;
        low = omega (arith, r.low);
        all =
            rw (split, step.0)
              (r.all
                ∙ ap₂ (λ x y. x ++ kept (suc orig) (t ∷ ts) (take n y))
                    (take-set slots new m (omega arith)) beyond
                ∙ append_assoc (take new slots) (m ∷ []) (kept (suc orig) (t ∷ ts) rest));
      }

drop_loop_lem :
    (n orig new : ℕ) (idxes slots scratch : List ℕ)
    → orig + n ≤ length slots
    → new ≤ orig
    → Ascending orig idxes (orig + n)
    → Ends n orig new idxes slots scratch
unfolding drop_loop Ascending
drop_loop_lem zero orig new [] slots scratch h k a = record {
  slots' = slots;
  new' = new;
  run =
      ap (λ z. returns (slots, new, z, []))
        (sym (ap (λ z. scratch ++ z) (dropped_none orig []) ∙ append_nil scratch));
  same = refl;
  low = omega arith;
  all = sym (ap (λ z. take new slots ++ z) (kept_all orig []) ∙ append_nil (take new slots));
}
drop_loop_lem zero orig new (t ∷ ts) slots scratch h k a = absurd (omega (arith, a.0, a.1))
drop_loop_lem (suc n) orig new [] slots scratch h k a =
    let (slots', run, same, all) = move_down_lem (suc n) orig new slots h k in
    let rest : List ℕ = take (suc n) (drop orig slots) in
    record {
      slots' = slots';
      new' = new + suc n;
      run =
          ap (λ z. bind z (λ s. returns (s, new + suc n, scratch, []))) run
          ∙ ap (λ z. returns (slots', new + suc n, z, []))
              (sym (ap (λ z. scratch ++ z) (dropped_none orig rest) ∙ append_nil scratch));
      same = same;
      low = omega arith;
      all = all ∙ sym (ap (λ z. take new slots ++ z) (kept_all orig rest));
    }
drop_loop_lem (suc n) orig new (t ∷ ts) slots scratch h k (a, b, c) =
    let (m, there, split) = split_at slots orig (omega arith) in
    elim (ℕ_discrete orig t) [
      | yes e ↦ drop_hit there split e (
          drop_loop_lem n (suc orig) new ts slots (scratch ++ m ∷ []) (omega arith) (omega arith) (
            Ascending-cast (suc t) (suc orig) (orig + suc n) (suc orig + n) ts (omega (arith, e))
              (omega arith) c))
      | no ne ↦ drop_miss there split (omega arith) k (omega arith) (
          drop_loop_lem n (suc orig) (suc new) (t ∷ ts) (set slots new m) scratch
            (omega (arith, length-set slots new m)) (omega arith)
            (
              omega arith,
              omega (arith, b),
              Ascending-cast (suc t) (suc t) (orig + suc n) (suc orig + n) ts refl (omega arith) c,
            ))
    ]

-- On a batch within its capacity and with nothing left to free, for indices of it in increasing
-- order, if the deallocation accepts the dropped packets, `drop_packets_stable` returns their
-- number. The batch is then the packets at the other indices, in their order, within its capacity
-- and with nothing left to free.
pub drop_packets_stable_lem :
    (mbuf_free_bulk : List ℕ → ℕ) (b : PacketBatch) (idxes : List ℕ)
    → IsValid b
    → Ascending 0 idxes b.len
    → mbuf_free_bulk (dropped 0 idxes (array b)) ≡ 0
    → (b' : PacketBatch) × (drop_packets_stable mbuf_free_bulk b idxes
        ≡ returns (b', some (length (dropped 0 idxes (array b)))))
      × IsValid b'
      × (array b' ≡ kept 0 idxes (array b))
unfolding drop_packets_stable
drop_packets_stable_lem mbuf_free_bulk b [] valid a f = (
  b,
  ap (λ z. returns (b, some (length z))) (sym (dropped_none 0 (array b))),
  valid,
  sym (kept_all 0 (array b)),
)
drop_packets_stable_lem mbuf_free_bulk b (i ∷ idxes) valid a f =
    let r =
      drop_loop_lem b.len 0 0 (i ∷ idxes) b.slots b.scratch (omega (arith, valid.within))
        (omega arith) (Ascending-cast 0 0 b.len (0 + b.len) (i ∷ idxes) refl (omega arith) a) in
    let gone : List ℕ = dropped 0 (i ∷ idxes) (array b) in
    let b' : PacketBatch = record b { slots = r.slots'; len = r.new'; scratch = [] } in
    (
      b',
      rw r.run (
          ap
            (λ z. returns (
              free_dropped mbuf_free_bulk (record b { slots = r.slots'; len = r.new' })
                (z ++ gone)))
            valid.freed
          ∙ ap returns (
              free_dropped_lem mbuf_free_bulk (record b { slots = r.slots'; len = r.new' }) gone
                f)),
      record {
        within = omega (arith, r.low, r.same, valid.within);
        addressable = omega (arith, r.same, valid.addressable);
        freed = refl;
      },
      r.all,
    )
