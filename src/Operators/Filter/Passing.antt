-- ===== src/Operators/Filter/Passing.antt =====
-- What framework/src/operators/filter_batch.rs leaves in the batch, and the packets that it frees.
use net_bricks.Prelude.{
  ℕ, suc, ◌+◌, ◌≡◌, refl, sym, ap, ◌∙◌, List, [], ◌∷◌, ◌++◌, Bool, true, false, some, arith, length,
  length-take, if◌then◌else◌,
}
use net_bricks.Prelude.Run.{returns, bind}
use net_bricks.PacketBatch.{PacketBatch, array, drop_packets_stable}
use net_bricks.PacketBatch.Drop.{
  IsValid, Ascending, Ascending-cast, kept, dropped, kept_all, dropped_none, step_hit, step_miss,
  drop_packets_stable_lem,
}
use net_bricks.Operators.Filter.{FilterBatch, refused, expect, act}

-- The packets that pass a test, and those that do not.
unfoldable pub passing : (ℕ → Bool) → List ℕ → List ℕ
passing test [] = []
passing test (x ∷ xs) = let rest = passing test xs in if test x then x ∷ rest else rest

unfoldable pub failing : (ℕ → Bool) → List ℕ → List ℕ
failing test [] = []
failing test (x ∷ xs) = let rest = failing test xs in if test x then rest else x ∷ rest

-- An index behind does not concern the packet at `i`.
ahead :
    (i x : ℕ) (ks xs : List ℕ) (end : ℕ)
    → Ascending (suc i) ks end
    → (kept i ks (x ∷ xs) ≡ x ∷ kept (suc i) ks xs)
      × (dropped i ks (x ∷ xs) ≡ dropped (suc i) ks xs)
unfolding Ascending kept dropped
ahead i x [] xs end a = (ap (λ t. x ∷ t) (sym (kept_all (suc i) xs)), sym (dropped_none (suc i) xs))
ahead i x (k ∷ ks) xs end (a, b, c) = step_miss i k x ks xs (ground arith)

Ascending-lower : (i : ℕ) (ks : List ℕ) (end : ℕ) → Ascending (suc i) ks end → Ascending i ks end
unfolding Ascending
Ascending-lower i [] end a = omega arith
Ascending-lower i (k ∷ ks) end (a, b, c) = (omega arith, b, c)

refused-Ascending :
    (test : ℕ → Bool) (i : ℕ) (xs : List ℕ) → Ascending i (refused test i xs) (i + length xs)
unfolding refused Ascending
refused-Ascending test i [] = omega arith
refused-Ascending test i (x ∷ xs) =
    let end : ℕ = i + suc (length xs) in
    let later = refused test (suc i) xs in
    let a =
      Ascending-cast (suc i) (suc i) (suc i + length xs) end later refl (omega arith)
        (refused-Ascending test (suc i) xs) in
    elim (test x) as (λ b. Ascending i (if b then later else i ∷ later) end) [
      | true ↦ Ascending-lower i later end a
      | false ↦ (omega arith, omega arith, a)
    ]

refused_lem :
    (test : ℕ → Bool) (i : ℕ) (xs : List ℕ)
    → (kept i (refused test i xs) xs ≡ passing test xs)
      × (dropped i (refused test i xs) xs ≡ failing test xs)
unfolding refused passing failing kept dropped
refused_lem test i [] = (refl, refl)
refused_lem test i (x ∷ xs) =
    let later = refused test (suc i) xs in
    let (rest, gone) = refused_lem test (suc i) xs in
    let (next, next') =
      ahead i x later xs (suc i + length xs) (refused-Ascending test (suc i) xs) in
    let (hit, hit') = step_hit i i x later xs (ground arith) in
    elim (test x)
      as (λ b.
        (kept i (if b then later else i ∷ later) (x ∷ xs)
          ≡ (if b then x ∷ passing test xs else passing test xs))
        × (dropped i (if b then later else i ∷ later) (x ∷ xs)
            ≡ (if b then failing test xs else x ∷ failing test xs))) [
              | true ↦ (next ∙ ap (λ t. x ∷ t) rest, next' ∙ gone)
              | false ↦ (hit ∙ rest, hit' ∙ ap (λ t. x ∷ t) gone)
            ]

-- What `act` does once the refused packets have their indices, `drop_packets_stable` given.
act_run :
    (mbuf_free_bulk : List ℕ → ℕ) (b : FilterBatch) (p p' : PacketBatch) (ks : List ℕ) (n : ℕ)
    → drop_packets_stable mbuf_free_bulk p ks ≡ returns (p', some n)
    → elim ks [
      | [] ↦ returns (record b { parent = p; remove = [] })
      | i ∷ remove ↦ bind (drop_packets_stable mbuf_free_bulk p (i ∷ remove)) (expect b)
    ]
      ≡ returns (record b { parent = p'; remove = [] })
unfolding drop_packets_stable
act_run mbuf_free_bulk b p p' [] n runs = ap (λ r. bind r (expect b)) runs
act_run mbuf_free_bulk b p p' (i ∷ ks) n runs = ap (λ r. bind r (expect b)) runs

-- With no indices left over, and a parent whose batch after its action is within its capacity and
-- has nothing left to free: if the deallocation accepts the packets that the filter refuses, `act`
-- does not panic. The batch then has the packets that pass the filter, in their order, is within
-- its capacity and has nothing left to free, and no indices are left over.
pub act_lem :
    (parent_act : PacketBatch → PacketBatch) (mbuf_free_bulk : List ℕ → ℕ) (b : FilterBatch)
    → b.remove ≡ []
    → IsValid (parent_act b.parent)
    → mbuf_free_bulk (failing b.filter (array (parent_act b.parent))) ≡ 0
    → (parent : PacketBatch) × (act parent_act mbuf_free_bulk b
        ≡ returns (record b { parent = parent; remove = [] }))
      × (array parent ≡ passing b.filter (array (parent_act b.parent)))
      × IsValid parent
unfolding act
act_lem parent_act mbuf_free_bulk b none_left valid freed =
    let p : PacketBatch = parent_act b.parent in
    let packets : List ℕ = array p in
    let ks : List ℕ = refused b.filter 0 packets in
    let (pass, fail) = refused_lem b.filter 0 packets in
    let count : 0 + length packets ≡ p.len =
      omega (arith, length-take p.len p.slots, valid.within) in
    let a =
      Ascending-cast 0 0 (0 + length packets) p.len ks refl count
        (refused-Ascending b.filter 0 packets) in
    let (p', runs, valid', all) =
      drop_packets_stable_lem mbuf_free_bulk p ks valid a (ap mbuf_free_bulk fail ∙ freed) in
    (
      p',
      ap
            (λ left. elim (left ++ ks) [
              | [] ↦ returns (record b { parent = p; remove = [] })
              | i ∷ remove ↦ bind (drop_packets_stable mbuf_free_bulk p (i ∷ remove)) (expect b)
            ])
            none_left
          ∙ act_run mbuf_free_bulk b p p' ks (length (dropped 0 ks packets)) runs,
      all ∙ pass,
      valid',
    )
