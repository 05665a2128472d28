-- ===== src/RingBuffer/Window.antt =====
-- What a ring of framework/src/state/ring_buffer.rs holds: its representation invariant, and the
-- bytes between two stream positions. A position counts all bytes ever written; the counters are
-- positions modulo 2 ^ 64, and a byte's place is its position modulo the size.
use native.Mathlib.Nat.{mod-add-mod, mod-mod_of_dvd, one-le-pow, pow-le-pow_right, mul-mod_right}
use native.Mathlib.Nat.{dvd_of_mod-eq-zero}
use net_bricks.Prelude.{
  ℕ, zero, suc, ◌+◌, ◌-◌, ◌*◌, ◌%◌, ◌^◌, ◌≤◌, ◌<◌, ◌≡◌, refl, sym, ap, ◌∙◌, List, [], ◌∷◌, arith,
  length, get_or, two-pow-add, bit_and_mask, bit_and,
}
use net_bricks.RingBuffer.{RingBuffer, available}

pub record IsValid (r : RingBuffer) : Type 0 where
  pub bits : ℕ
  pub power : r.size ≡ 2 ^ bits
  pub small : bits ≤ 63
  pub masked : r.mask ≡ r.size - 1
  pub stored : length r.vec ≡ r.size
  pub head_word : r.head < 2 ^ 64
  pub tail_word : r.tail < 2 ^ 64
  pub room : available r < r.size

-- A counter that wraps at 2 ^ 64 keeps its place in a ring whose size is a power of two.
pub mod-two-pow : (k a x : ℕ) → k ≤ 64 → (a % 2 ^ 64 + x) % 2 ^ k ≡ (a + x) % 2 ^ k
mod-two-pow k a x h =
    let e : k + (64 - k) ≡ 64 = omega arith in
    let split : 2 ^ 64 ≡ 2 ^ k * 2 ^ (64 - k) = ap (λ i. 2 ^ i) (sym e) ∙ two-pow-add k (64 - k) in
    let divides =
      dvd_of_mod-eq-zero (2 ^ k)
        (ap (λ t. t % 2 ^ k) split ∙ mul-mod_right (2 ^ k) (2 ^ (64 - k))) in
    sym (mod-add-mod (a % 2 ^ 64) (2 ^ k) x)
    ∙ ap (λ t. (t + x) % 2 ^ k) (mod-mod_of_dvd (2 ^ k) a divides)
    ∙ mod-add-mod a (2 ^ k) x

-- the `n` bytes from position `p` on
unfoldable pub bytes_from : List ℕ → ℕ → ℕ → ℕ → List ℕ
bytes_from vec size p zero = []
bytes_from vec size p (suc n) = get_or vec (p % size) 0 ∷ bytes_from vec size (suc p) n

-- the bytes that a reader has still to get, oldest first
unfoldable pub contents : RingBuffer → List ℕ
contents r = bytes_from r.vec r.size r.head (available r)

module _ (vec : List ℕ) (size : ℕ) where
  pub length-bytes_from : (p n : ℕ) → length (bytes_from vec size p n) ≡ n
  unfolding bytes_from
  length-bytes_from p zero = refl
  length-bytes_from p (suc n) = ap suc (length-bytes_from (suc p) n)

  pub get_or-bytes_from :
      (p n i : ℕ) → i < n → get_or (bytes_from vec size p n) i 0 ≡ get_or vec ((p + i) % size) 0
  unfolding bytes_from
  get_or-bytes_from p zero i h = elim h [ ]
  get_or-bytes_from p (suc n) zero h = ap (λ t. get_or vec (t % size) 0) (omega arith)
  get_or-bytes_from p (suc n) (suc i) h =
      get_or-bytes_from (suc p) n i (omega arith) ∙ ap (λ t. get_or vec (t % size) 0) (omega arith)

pub length-contents : (r : RingBuffer) → length (contents r) ≡ available r
unfolding contents
length-contents r = length-bytes_from r.vec r.size r.head (available r)

pub get_or-contents :
    (r : RingBuffer) (i : ℕ)
    → i < available r
    → get_or (contents r) i 0 ≡ get_or r.vec ((r.head + i) % r.size) 0
unfolding contents
get_or-contents r i h = get_or-bytes_from r.vec r.size r.head (available r) i h

module _ {r : RingBuffer} (v : IsValid r) where
  pub size_pos : 0 < r.size
  size_pos = omega (arith, v.power, one-le-pow v.bits 2 (omega arith))

  pub size_le : r.size ≤ 2 ^ 63
  size_le =
      omega (arith, v.power, pow-le-pow_right {n = 2} (omega arith) {i = v.bits} {j = 63} v.small)

  -- `counter & mask` is the place of the counter.
  pub bit_and-mask : (p : ℕ) → bit_and p r.mask ≡ p % r.size
  bit_and-mask p =
      ap (bit_and p) (v.masked ∙ ap (λ t. t - 1) v.power)
      ∙ bit_and_mask v.bits p
      ∙ ap (λ t. p % t) (sym v.power)

  -- A wrapped counter has the place of the position that it stands for.
  pub wrapped_place : (a x : ℕ) → (a % 2 ^ 64 + x) % r.size ≡ (a + x) % r.size
  wrapped_place a x = rw v.power (mod-two-pow v.bits a x (omega (arith, v.small)))

  -- The tail stands for the position after the last byte held.
  pub tail_place : (x : ℕ) → (r.tail + x) % r.size ≡ (r.head + available r + x) % r.size
  tail_place x =
      let e : r.tail ≡ (r.head + available r) % 2 ^ 64 = omega (arith, v.head_word, v.tail_word) in
      ap (λ t. (t + x) % r.size) e ∙ wrapped_place (r.head + available r) x
