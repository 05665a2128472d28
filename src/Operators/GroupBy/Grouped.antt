-- ===== src/Operators/GroupBy/Grouped.antt =====
-- What framework/src/operators/group_by.rs puts into the queues of the groups.
use mathlib.Core.List.{append-nil, append_assoc}
use native.Mathlib.Decide.{ℕ_discrete}
use net_bricks.Prelude.{
  ℕ, zero, suc, ◌+◌, ◌-◌, ◌<◌, ◌≡◌, ◌≢◌, refl, sym, ap, ◌∙◌, List, [], ◌∷◌, ◌++◌, map, some, true,
  false, arith, length, length-append, length-set, get_elem?, get_or, get_or-set_self,
  get_or-set_ne, set, take, min, if◌then◌else◌, ◌==◌,
}
use net_bricks.Prelude.Run.{returns, bind}
use net_bricks.RingBuffer.{RingBuffer}
use net_bricks.RingBuffer.Window.{IsValid, contents}
use net_bricks.PacketBatch.{PacketBatch, array, consume_batch}
use net_bricks.Mpsc.{MpscQueue, enqueue_one}
use net_bricks.Mpsc.Fifo.{quiet, enqueue_lem}
use net_bricks.Operators.GroupBy.{enqueue_all, execute}

-- The queues with one producer each that no call is using.
abbrev pub queues : List RingBuffer → List MpscQueue
queues rs = map (λ r. quiet r 1) rs

get_elem?-queues :
    (rs : List RingBuffer) (i : ℕ) (d : RingBuffer)
    → i < length rs
    → get_elem? (queues rs) i ≡ some (quiet (get_or rs i d) 1)
get_elem?-queues [] i d h = absurd (omega arith)
get_elem?-queues (r ∷ rs) zero d h = refl
get_elem?-queues (r ∷ rs) (suc i) d h = get_elem?-queues rs i d (omega arith)

set-queues :
    (rs : List RingBuffer) (i : ℕ) (r : RingBuffer)
    → set (queues rs) i (quiet r 1) ≡ queues (set rs i r)
set-queues [] i r = refl
set-queues (x ∷ rs) zero r = refl
set-queues (x ∷ rs) (suc i) r = ap (λ t. quiet x 1 ∷ t) (set-queues rs i r)

record Enqueued (fuel : ℕ) (r : RingBuffer) (packet : ℕ) : Type 0 where
  r' : RingBuffer
  run : enqueue_one (suc fuel) (quiet r 1) packet ≡ returns (quiet r' 1, true)
  size : r'.size ≡ r.size
  behind : contents r' ≡ contents r ++ packet ∷ []
  valid : IsValid r'

enqueue_one_lem :
    (fuel : ℕ) (r : RingBuffer) (packet : ℕ)
    → IsValid r
    → length (contents r) + 1 < r.size
    → Enqueued fuel r packet
unfolding enqueue_one
enqueue_one_lem fuel r packet v room =
    let (r', run, size, behind, valid) = enqueue_lem v 1 (packet ∷ []) fuel (omega arith) in
    let one : min (r.size - 1 - length (contents r)) 1 ≡ 1 = omega arith in
    record {
      r' = r';
      run =
          ap (λ m. bind m λ x. returns (x.0, x.1 == 1))
            (run ∙ ap (λ n. returns (quiet r' 1, n)) one);
      size = size;
      behind = behind ∙ ap (λ n. contents r ++ take n (packet ∷ [])) one;
      valid = valid;
    }

-- The packets of a group, in their order.
unfoldable pub group_of : ℕ → List (ℕ × ℕ) → List ℕ
group_of i [] = []
group_of i ((group, packet) ∷ rest) =
    let others = group_of i rest in if group == i then packet ∷ others else others

-- Every packet has a group with a queue.
abbrev pub InGroups : ℕ → List (ℕ × ℕ) → Type 0
InGroups n [] = Unit {0}
InGroups n ((group, packet) ∷ rest) = (group < n) × InGroups n rest

-- The rings are valid and have room for the packets of their groups. The ring `d` is the one out
-- of range.
pub record HaveRoom (d : RingBuffer) (rs : List RingBuffer) (assigned : List (ℕ × ℕ)) : Type 0 where
  pub valid : (i : ℕ) → i < length rs → IsValid (get_or rs i d)
  pub room :
      (i : ℕ)
      → i < length rs
      → length (contents (get_or rs i d)) + length (group_of i assigned) < (get_or rs i d).size

-- Every ring has the packets of its group behind what it had.
pub record Behind (d : RingBuffer) (rs rs' : List RingBuffer) (assigned : List (ℕ × ℕ))
    : Type 0 where
  pub count : length rs' ≡ length rs
  pub behind :
      (i : ℕ)
      → i < length rs
      → contents (get_or rs' i d) ≡ contents (get_or rs i d) ++ group_of i assigned

group_of_own :
    (i g packet : ℕ) (rest : List (ℕ × ℕ))
    → g ≡ i
    → group_of i ((g, packet) ∷ rest) ≡ packet ∷ group_of i rest
unfolding group_of
group_of_own i g packet rest e = let own : (g == i) ≡ true = ground arith in rw (own) refl

group_of_other :
    (i g packet : ℕ) (rest : List (ℕ × ℕ))
    → g ≢ i
    → group_of i ((g, packet) ∷ rest) ≡ group_of i rest
unfolding group_of
group_of_other i g packet rest ne = let other : (g == i) ≡ false = ground arith in rw (other) refl

module _ (d : RingBuffer) (rs : List RingBuffer) (g packet : ℕ) (here : g < length rs) where
  first_room :
      (rest : List (ℕ × ℕ))
      → HaveRoom d rs ((g, packet) ∷ rest)
      → length (contents (get_or rs g d)) + 1 < (get_or rs g d).size
  first_room rest free =
      let one = ap length (group_of_own g g packet rest refl) in
      let room = free.room g here in omega arith

  module _ (r' : RingBuffer) (size : r'.size ≡ (get_or rs g d).size)
      (own : contents r' ≡ contents (get_or rs g d) ++ packet ∷ []) where
    own_ring : (i : ℕ) → g ≡ i → get_or (set rs g r') i d ≡ r'
    own_ring i e = ap (λ j. get_or (set rs g r') j d) (sym e) ∙ get_or-set_self rs g r' d here

    -- What a ring has and what comes for it later, whether the packet is for it or not
    together :
        (i : ℕ) (rest : List (ℕ × ℕ))
        → contents (get_or (set rs g r') i d) ++ group_of i rest
          ≡ contents (get_or rs i d) ++ group_of i ((g, packet) ∷ rest)
    together i rest = elim (ℕ_discrete g i) [
      | yes e ↦
          rw (own_ring i e, own, group_of_own i g packet rest e)
            (append_assoc (contents (get_or rs g d)) (packet ∷ []) (group_of i rest)
              ∙ ap (λ j. contents (get_or rs j d) ++ packet ∷ group_of i rest) e)
      | no ne ↦ rw (get_or-set_ne rs g i r' d ne, group_of_other i g packet rest ne) refl
    ]

    same_size : (i : ℕ) → (get_or (set rs g r') i d).size ≡ (get_or rs i d).size
    same_size i = elim (ℕ_discrete g i) [
      | yes e ↦ ap (λ r. r.size) (own_ring i e) ∙ size ∙ ap (λ j. (get_or rs j d).size) e
      | no ne ↦ ap (λ r. r.size) (get_or-set_ne rs g i r' d ne)
    ]

    later-HaveRoom :
        (rest : List (ℕ × ℕ))
        → IsValid r'
        → HaveRoom d rs ((g, packet) ∷ rest)
        → HaveRoom d (set rs g r') rest
    later-HaveRoom rest v free = record {
      valid = λ i l. elim (ℕ_discrete g i) [
        | yes e ↦ rw (own_ring i e) v
        | no ne ↦
            let same = length-set rs g r' in
            rw (get_or-set_ne rs g i r' d ne) (free.valid i (omega arith))
      ];
      room = λ i l.
          let same = length-set rs g r' in
          let before = free.room i (omega arith) in
          let sizes = same_size i in
          let lengths = ap length (together i rest) in
          let left = length-append (contents (get_or (set rs g r') i d)) (group_of i rest) in
          let right = length-append (contents (get_or rs i d)) (group_of i ((g, packet) ∷ rest)) in
          omega arith;
    }

    later-Behind :
        (rest : List (ℕ × ℕ)) (rs' : List RingBuffer)
        → Behind d (set rs g r') rs' rest
        → Behind d rs rs' ((g, packet) ∷ rest)
    later-Behind rest rs' b = record {
      count = b.count ∙ length-set rs g r';
      behind = λ i l. let same = length-set rs g r' in b.behind i (omega arith) ∙ together i rest;
    }

module _ {W : Type 0} (group_fn : ℕ → W → W × ℕ) (save_header_and_offset : ℕ → W → W)
    (d : RingBuffer) where
  -- The state after the packets, and the packets with the groups that they get.
  unfoldable pub assign : List ℕ → W → W × List (ℕ × ℕ)
  assign [] w = (w, [])
  assign (packet ∷ rest) w =
      let (w, group) = group_fn packet w in
      let (w, assigned) = assign rest (save_header_and_offset packet w) in
      (w, (group, packet) ∷ assigned)

  enqueue_all_lem :
      (fuel : ℕ) (rs : List RingBuffer) (packets : List ℕ) (w : W)
      → InGroups (length rs) (assign packets w).1
      → HaveRoom d rs (assign packets w).1
      → (rs' : List RingBuffer) × (enqueue_all group_fn save_header_and_offset
            (suc fuel)
            packets
            w
            (queues rs)
          ≡ returns ((assign packets w).0, queues rs'))
        × Behind d rs rs' (assign packets w).1
  unfolding enqueue_all group_of assign
  enqueue_all_lem fuel rs [] w groups free =
      (rs, refl, record { count = refl; behind = λ i l. sym (append-nil _) })
  enqueue_all_lem fuel rs (packet ∷ rest) w (here, groups) free =
      let g : ℕ = (group_fn packet w).1 in
      let w1 : W = save_header_and_offset packet (group_fn packet w).0 in
      let e =
        enqueue_one_lem fuel (get_or rs g d) packet (free.valid g here)
          (first_room d rs g packet here _ free) in
      let (rs', run, behind) =
        enqueue_all_lem fuel (set rs g e.r') rest w1 (rw (length-set rs g e.r') groups)
          (later-HaveRoom d rs g packet here e.r' e.size e.behind _ e.valid free) in
      (
        rs',
        rw (get_elem?-queues rs g d here, e.run, set-queues rs g e.r') run,
        later-Behind d rs g packet here e.r' e.size e.behind _ rs' behind,
      )

  -- The task leaves the batch empty and puts, behind what each queue holds, the packets of its group
  -- in the order of the batch. What the parent does last it does with the empty batch and in the
  -- state after all the packets. The condition is that every packet has a group with a queue, that
  -- no other call is using the queues, and that each queue has room for the packets of its group.
  pub execute_lem :
      (parent_act parent_done : PacketBatch → W → W × PacketBatch) (fuel : ℕ) (w : W)
      (parent : PacketBatch) (rs : List RingBuffer)
      → InGroups (length rs) (assign (array (parent_act parent w).1) (parent_act parent w).0).1
      → HaveRoom d rs (assign (array (parent_act parent w).1) (parent_act parent w).0).1
      → let (w1, filled) = parent_act parent w in
        let (w2, assigned) = assign (array filled) w1 in
        let (w3, left) = parent_done (consume_batch filled) w2 in
        (rs' : List RingBuffer) × (execute group_fn save_header_and_offset parent_act parent_done
            (suc fuel)
            w
            record { parent = parent; producers = queues rs }
          ≡ returns (w3, record { parent = left; producers = queues rs' }))
        × Behind d rs rs' assigned
  unfolding execute
  execute_lem parent_act parent_done fuel w parent rs groups free =
      let (w1, filled) = parent_act parent w in
      let (rs', run, behind) = enqueue_all_lem fuel rs (array filled) w1 groups free in
      (rs', rw (run) refl, behind)
