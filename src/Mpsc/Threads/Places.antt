-- ===== src/Mpsc/Threads/Places.antt =====
-- The slots of the positions in a queue of framework/src/queues/mpsc_mbuf_queue.rs. A position
-- counts the pointers for which slots have been reserved.
use native.Mathlib.Nat.{mod-eq_of_lt, mod-eq-sub-mod, mod-lt, mod-add-mod}
use native.Mathlib.Decide.{dec_lt, ℕ_discrete}
use net_bricks.Prelude.{
  ℕ, ◌+◌, ◌-◌, ◌%◌, ◌≤◌, ◌<◌, ◌≡◌, ◌≢◌, sym, ap, ◌∙◌, List, arith, length, get_or, set,
  get_or-set_self, get_or-set_ne, length-set,
}
use net_bricks.RingBuffer.{RingBuffer}
use net_bricks.RingBuffer.Window.{IsValid, bit_and-mask, size_pos}
use net_bricks.Mpsc.{MpscQueue}
use net_bricks.Mpsc.Threads.{queue_idx}

-- The slots of the queue as a ring without bytes, for the laws of the places of a ring.
abbrev pub base : MpscQueue → RingBuffer
base q = record { head = 0; tail = 0; size = q.slots; mask = q.mask; vec = q.queue }

mod-self_add : (a d s : ℕ) → 0 < d → d < s → a % s ≢ (a + d) % s
mod-self_add a d s pos small e =
    let below : a % s < s = mod-lt a (omega arith) in
    let e' : a % s ≡ (a % s + d) % s = e ∙ sym (mod-add-mod a s d) in
    elim (dec_lt (a % s + d) s) [
      | yes h ↦ omega (arith, e', mod-eq_of_lt h)
      | no h ↦
          let wraps : (a % s + d) % s ≡ a % s + d - s =
            mod-eq-sub-mod (omega arith) ∙ mod-eq_of_lt (omega arith) in
          omega (arith, e', wraps)
    ]

-- Positions less than a round apart have different slots.
pub place-ne : (a b s : ℕ) → a ≢ b → a < b + s → b < a + s → a % s ≢ b % s
place-ne a b s h near near' e = elim (dec_lt a b) [
  | yes l ↦
      let d : a + (b - a) ≡ b = omega arith in
      mod-self_add a (b - a) s (omega arith) (omega arith) (e ∙ ap (λ t. t % s) (sym d))
  | no l ↦
      let d : b + (a - b) ≡ a = omega arith in
      mod-self_add b (a - b) s (omega (arith, h)) (omega arith) (sym e ∙ ap (λ t. t % s) (sym d))
]

-- The slot of position `p` has the pointer that it was reserved for.
abbrev pub Holds : MpscQueue → List ℕ → ℕ → Type 0
Holds q log p = get_or q.queue (p % q.slots) 0 ≡ get_or log p 0

module _ (q : MpscQueue) (v : IsValid (base q)) where
  pub queue_idx_lem : (start k : ℕ) → k ≤ q.slots → queue_idx q start k ≡ (start + k) % q.slots
  queue_idx_lem start k h =
      let below = mod-lt start (size_pos v) in
      rw (bit_and-mask v start, ← mod-add-mod start q.slots k)
        (elim (dec_lt (start % q.slots + k) q.slots) [
          | yes l ↦
              let e : (start % q.slots + k) % q.slots ≡ start % q.slots + k = mod-eq_of_lt l in
              ground (arith, e)
          | no l ↦
              let e : (start % q.slots + k) % q.slots ≡ start % q.slots + k - q.slots =
                mod-eq-sub-mod (omega arith) ∙ mod-eq_of_lt (omega arith) in
              ground (arith, e)
        ])

  pub queue_idx-lt : (start k : ℕ) → k ≤ q.slots → queue_idx q start k < length q.queue
  queue_idx-lt start k h =
      omega (arith, queue_idx_lem start k h, v.stored, mod-lt (start + k) (size_pos v))

  -- The store of the pointer of position `a` keeps what the positions about it hold.
  pub set-Holds :
      (log : List ℕ) (a i m p : ℕ)
      → i ≡ a % q.slots
      → m ≡ get_or log a 0
      → p < a + q.slots
      → a < p + q.slots
      → (p ≢ a → Holds q log p)
      → Holds (record q { queue = set q.queue i m }) log p
  set-Holds log a i m p place e near near' rest = elim (ℕ_discrete p a) [
    | yes same ↦
        let within : i < length q.queue = omega (arith, place, v.stored, mod-lt a (size_pos v)) in
        ap (λ t. get_or (set q.queue i m) t 0) (ap (λ t. t % q.slots) same ∙ sym place)
        ∙ get_or-set_self q.queue i m 0 within
        ∙ e
        ∙ ap (λ t. get_or log t 0) (sym same)
    | no other ↦
        get_or-set_ne q.queue i (p % q.slots) m 0
          (λ w. place-ne a p q.slots (λ u. other (sym u)) near' near (sym place ∙ w))
        ∙ rest other
  ]

  pub set-base : (i m : ℕ) → IsValid (base (record q { queue = set q.queue i m }))
  set-base i m = record {
    bits = v.bits;
    power = v.power;
    small = v.small;
    masked = v.masked;
    stored = length-set q.queue i m ∙ v.stored;
    head_word = v.head_word;
    tail_word = v.tail_word;
    room = v.room;
  }
