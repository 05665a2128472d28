-- ===== src/RingBuffer/Create.antt =====
-- `RingBuffer::new` of framework/src/state/ring_buffer.rs accepts the powers of two.
use native.Mathlib.Nat.{pow-suc, one-le-pow, pow-le-pow_right}
use native.Mathlib.Nat.{mod_self}
use native.Mathlib.Decide.{ℕ_discrete}
use net_bricks.Prelude.{
  ℕ, zero, suc, ◌-◌, ◌/◌, ◌%◌, ◌^◌, ◌≤◌, ◌<◌, ◌≡◌, ◌≢◌, refl, ap, ◌∙◌, [], arith, bit_and,
  bit_and_step, bit_and_mask, sub64, replicate, length-replicate, false, ◌==◌,
}
use net_bricks.Errors.{ok, err, invalid_ring_size}
use net_bricks.RingBuffer.{RingBuffer, new}
use net_bricks.RingBuffer.Window.{IsValid, contents, bytes_from}

bit_and_self_fuel : (k a : ℕ) → a < 2 ^ k → bit_and a a ≡ a
bit_and_self_fuel zero a h = let e : a ≡ 0 = omega arith in rw e
bit_and_self_fuel (suc k) a h =
    omega (arith, pow-suc 2 k, bit_and_step a a, bit_and_self_fuel k (a / 2))

-- `bytes & (bytes - 1)` is 0 for the powers of two alone, among the positive numbers.
pub bit_and-pred :
    (k a : ℕ) → 0 < a → a < 2 ^ k → bit_and a (a - 1) ≡ 0 → (i : ℕ) × (i < k) × (a ≡ 2 ^ i)
bit_and-pred zero a h l e = absurd (omega arith)
bit_and-pred (suc k) a h l e =
    let p = pow-suc 2 k in
    let step = bit_and_step a (a - 1) in
    elim (ℕ_discrete (a % 2) 0) [
      | yes even ↦
          let half : (a - 1) / 2 ≡ a / 2 - 1 = omega arith in
          let halves : bit_and (a / 2) (a / 2 - 1) ≡ 0 =
            omega (arith, step, ap (bit_and (a / 2)) half) in
          let (i, small, pow) = bit_and-pred k (a / 2) (omega arith) (omega arith) halves in
          (suc i, omega arith, omega (arith, pow-suc 2 i))
      | no odd ↦
          let half : (a - 1) / 2 ≡ a / 2 = omega arith in
          let self = bit_and_self_fuel k (a / 2) (omega arith) in
          (0, omega arith, omega (arith, step, ap (bit_and (a / 2)) half, self))
    ]

-- A size that is a power of two, up to 2 ^ 63, is accepted, and the new ring is valid, empty and
-- of that size.
pub new_power_of_2 :
    (k : ℕ)
    → k ≤ 63
    → (r : RingBuffer) × (new (2 ^ k) ≡ ok r) × (r.size ≡ 2 ^ k) × (contents r ≡ []) × IsValid r
unfolding new contents bytes_from
new_power_of_2 k h =
    let pos = one-le-pow k 2 (omega arith) in
    let small = pow-le-pow_right {n = 2} (omega arith) {i = k} {j = 63} h in
    let mask : sub64 (2 ^ k) 1 ≡ 2 ^ k - 1 = omega arith in
    let test : bit_and (2 ^ k) (sub64 (2 ^ k) 1) ≡ 0 =
      ap (bit_and (2 ^ k)) mask ∙ bit_and_mask k (2 ^ k) ∙ mod_self (2 ^ k) in
    let r : RingBuffer = record {
      head = 0;
      tail = 0;
      size = 2 ^ k;
      mask = sub64 (2 ^ k) 1;
      vec = replicate (2 ^ k) 0;
    } in
    (
      r,
      rw test,
      refl,
      refl,
      record {
        bits = k;
        power = refl;
        small = h;
        masked = mask;
        stored = length-replicate (2 ^ k) 0;
        head_word = omega arith;
        tail_word = omega arith;
        room = omega arith;
      },
    )

-- Any positive 64-bit size that is not a power of two is refused with an error that names it.
pub new_other :
    (bytes : ℕ)
    → 0 < bytes
    → bytes < 2 ^ 64
    → ((k : ℕ) → bytes ≢ 2 ^ k)
    → new bytes ≡ err (invalid_ring_size bytes)
unfolding new
new_other bytes h l other =
    let pred : sub64 bytes 1 ≡ bytes - 1 = omega arith in
    let test : (bit_and bytes (bytes - 1) == 0) ≡ false =
      elim (ℕ_discrete (bit_and bytes (bytes - 1)) 0) [
        | yes e ↦ let (k, _, pow) = bit_and-pred 64 bytes h l e in absurd (other k pow)
        | no ne ↦ ground arith
      ] in
    rw (pred, test)
