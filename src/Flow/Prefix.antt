-- ===== src/Flow/Prefix.antt =====
-- Prefix membership of framework/src/utils/flow.rs against division of addresses.
use native.Mathlib.Nat.{one-le-pow, mul-div_cancel, pow-le-pow_right, div-add-mod'}
use native.Mathlib.Decide.{ℕ_discrete}
use net_bricks.Prelude.{
  ℕ, ◌+◌, ◌-◌, ◌*◌, ◌/◌, ◌%◌, ◌^◌, ◌≤◌, ◌<◌, ◌≡◌, ◌≢◌, refl, sym, ap, ◌∙◌, false, bit_and, not32,
  bit_and_not, bit_and_mask, ◌==◌, arith,
}
use net_bricks.Flow.{new, in_range, prefix_mask}

-- Masking with the complement of `k` low bits clears them.
clear_low :
    (k a : ℕ)
    → k ≤ 32
    → 2 ^ k - 1 < 2 ^ 32
    → a < 2 ^ 32
    → bit_and a (not32 (2 ^ k - 1)) ≡ a / 2 ^ k * 2 ^ k
clear_low k a h m p =
    omega (arith, bit_and_not 32 a (2 ^ k - 1) p m, bit_and_mask k a, div-add-mod' a (2 ^ k))

eq_times : (x y m : ℕ) → 0 < m → (x * m == y * m) ≡ (x == y)
eq_times x y m h = elim (ℕ_discrete x y) [
  | yes e ↦ let d : x * m ≡ y * m = ap (λ (t : ℕ). t * m) e in ground arith
  | no ne ↦
      let d : x * m ≢ y * m =
        λ e. ne (sym (mul-div_cancel x h) ∙ ap (λ (t : ℕ). t / m) e ∙ mul-div_cancel y h) in
      ground arith
]

prefix_mask_lem :
    (prefix : ℕ) → 0 < prefix → prefix ≤ 32 → prefix_mask prefix ≡ not32 (2 ^ (32 - prefix) - 1)
unfolding prefix_mask
prefix_mask_lem prefix hp hq =
    let shift : (32 + 2 ^ 8 - prefix) % 2 ^ 8 % 32 ≡ 32 - prefix = omega arith in
    let some : (prefix == 0) ≡ false = ground arith in rw (some, shift) refl

-- For 32-bit addresses and a length from 1 to 32, an address is in the range of a prefix exactly
-- if it agrees with the prefix's address in the leading bits that the length counts.
pub in_range_lem :
    (address other prefix : ℕ)
    → address < 2 ^ 32
    → other < 2 ^ 32
    → 0 < prefix
    → prefix ≤ 32
    → in_range (new address prefix) other
      ≡ (other / 2 ^ (32 - prefix) == address / 2 ^ (32 - prefix))
unfolding new
in_range_lem address other prefix ha ho hp hq =
    let k : ℕ = 32 - prefix in
    let two_pos : 0 < 2 = omega arith in
    let low : k ≤ 32 = omega arith in
    let pos = one-le-pow k 2 (omega arith) in
    let bound = pow-le-pow_right (two_pos) (low) in
    let small : 2 ^ k - 1 < 2 ^ 32 = omega (arith, bound, pos) in
    rw
      (
        prefix_mask_lem prefix hp hq,
        clear_low k address (omega arith) small ha,
        clear_low k other (omega arith) small ho,
      )
      (eq_times (other / 2 ^ k) (address / 2 ^ k) (2 ^ k) pos)
