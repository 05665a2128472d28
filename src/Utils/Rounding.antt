-- ===== src/Utils/Rounding.antt =====
-- What framework/src/utils/mod.rs rounds to: the next page, and the next power of two.
use Prim.Native.Nat.{bit_or}
use native.Mathlib.Decide.{dec_lt}
use native.Mathlib.Nat.{pow-suc, div-le_self, mul-le-mul_right, add_comm}
use native.Mathlib.Nat.{
  pow-suc, one-le-pow, le-div_iff_mul-le, div-lt_iff_lt-mul, mod-lt, div-add-mod', pow-le-pow_right,
}
use net_bricks.Prelude.{
  ℕ, ap, ◌∙◌, add64, sub64, suc, ◌+◌, ◌-◌, ◌*◌, ◌/◌, ◌%◌, ◌^◌, ◌≤◌, ◌<◌, ◌≡◌, refl, arith,
  bit_and_not, bit_and_mask, bit_or_high, bit_or_bounds, two-pow-add, two_pow_bracket,
}
use net_bricks.Utils.{round_to_pages, smear, round_to_power_of_2}

-- A size with 4095 bytes to spare below 2 ^ 64 is rounded to a multiple of the page size, at or
-- above it and less than a page away.
pub round_to_pages_lem :
    (n : ℕ)
    → n + 4095 < 2 ^ 64
    → (round_to_pages n % 4096 ≡ 0) × (n ≤ round_to_pages n) × (round_to_pages n < n + 4096)
unfolding round_to_pages
round_to_pages_lem n h =
    let whole : add64 n 4095 ≡ n + 4095 = omega arith in
    rw whole
      (omega (arith, bit_and_not 64 (n + 4095) 4095 h (omega arith), bit_and_mask 12 (n + 4095)))

-- `Ones t j n`: the number has at most `t` binary digits, and of `t` the first `j` are ones.
abbrev Ones : ℕ → ℕ → ℕ → Type 0
Ones t j n = (2 ^ t ≤ n + 2 ^ (t - j)) × (n < 2 ^ t)

two-pow-sub-one-mul : (j r : ℕ) → (2 ^ j - 1) * 2 ^ r + 2 ^ r ≡ 2 ^ (j + r)
two-pow-sub-one-mul j r =
    let ones : suc (2 ^ j - 1) ≡ 2 ^ j = omega (arith, one-le-pow j 2 (omega arith)) in
    omega (arith, two-pow-add j r, ap (λ (t : ℕ). t * 2 ^ r) ones)

-- What is below the leading ones is filled by as many again.
fill :
    (j r n : ℕ)
    → 2 ^ (j + r) ≤ n + 2 ^ r
    → n / 2 ^ j < 2 ^ r
    → 2 ^ r ≤ n / 2 ^ j + 2 ^ (r - j)
    → 2 ^ (j + r) ≤ smear j n + 2 ^ (r - j)
unfolding smear
fill j r n lead small ones =
    let p = two-pow-sub-one-mul j r in
    let pos = one-le-pow r 2 (omega arith) in
    let top : 2 ^ j - 1 ≤ n / 2 ^ r = (le-div_iff_mul-le pos).1 (omega (arith, p)) in
    let mono = mul-le-mul_right (2 ^ r) top in
    let split = bit_or_high r (n / 2 ^ r) (n % 2 ^ r) (n / 2 ^ j) (mod-lt n pos) small in
    let bounds = bit_or_bounds r (n % 2 ^ r) (n / 2 ^ j) (mod-lt n pos) small in
    let whole = ap (λ (t : ℕ). bit_or t (n / 2 ^ j)) (div-add-mod' n (2 ^ r)) in
    omega (arith, p, mono, split, bounds, whole)

-- Leading ones stay leading ones in the quotient.
div-two-pow_ones : (j r n : ℕ) → 2 ^ (j + r) ≤ n + 2 ^ r → 2 ^ r ≤ n / 2 ^ j + 2 ^ (r - j)
div-two-pow_ones j r n lead = elim (dec_lt r j) [
  | yes h ↦
      let mono = pow-le-pow_right {n = 2} (omega arith) {i = r} {j = j} (omega arith) in
      let swap = ap (λ k. 2 ^ k) (add_comm j r) in
      let room : (2 ^ r - 1) * 2 ^ j ≤ n = omega (arith, two-pow-sub-one-mul r j, mono, swap) in
      let small = (le-div_iff_mul-le (one-le-pow j 2 (omega arith))).1 room in
      let pos = one-le-pow (r - j) 2 (omega arith) in omega arith
  | no h ↦
      let k : ℕ = r - j in
      let e : j + k ≡ r = omega arith in
      let e' : k + j ≡ r = omega arith in
      let high = two-pow-sub-one-mul j k ∙ ap (λ i. 2 ^ i) e in
      let shift = two-pow-add k j in
      let shift' = ap (λ i. 2 ^ i) e' in
      let product : (2 ^ j - 1) * 2 ^ k * 2 ^ j ≡ (2 ^ j - 1) * 2 ^ r =
        omega
          (arith, ap (λ (t : ℕ). (2 ^ j - 1) * t) shift, ap (λ (t : ℕ). (2 ^ j - 1) * t) shift') in
      let room : (2 ^ j - 1) * 2 ^ k * 2 ^ j ≤ n =
        omega (arith, product, two-pow-sub-one-mul j r) in
      let small = (le-div_iff_mul-le (one-le-pow j 2 (omega arith))).1 room in omega arith
]

-- `size |= size >> j` doubles the leading ones.
smear-Ones : (t j n : ℕ) → Ones t j n → Ones t (j + j) (smear j n)
unfolding smear
smear-Ones t j n o = elim (dec_lt j t) [
  | yes h ↦
      let r : ℕ = t - j in
      let e : j + r ≡ t = omega arith in
      let pos = one-le-pow j 2 (omega arith) in
      let rest : r - j ≡ t - (j + j) = omega arith in
      let small : n / 2 ^ j < 2 ^ r =
        (div-lt_iff_lt-mul pos).1 (omega (arith, two-pow-add j r, ap (λ k. 2 ^ k) e)) in
      let lead : 2 ^ (j + r) ≤ n + 2 ^ r = omega (arith, o.0, ap (λ k. 2 ^ k) e) in
      let filled = fill j r n lead small (div-two-pow_ones j r n lead) in
      let below = div-le_self n (2 ^ j) in
      omega (
        arith,
        filled,
        ap (λ k. 2 ^ k) e,
        ap (λ k. 2 ^ k) rest,
        bit_or_bounds t n (n / 2 ^ j) o.1 (omega arith),
      )
  | no h ↦
      let e : t - j ≡ 0 = omega arith in
      let d : t - (j + j) ≡ 0 = omega arith in
      let full = ap (λ k. 2 ^ k) e in
      let full' = ap (λ k. 2 ^ k) d in
      let below = div-le_self n (2 ^ j) in
      omega (arith, full, full', bit_or_bounds t n (n / 2 ^ j) o.1 (omega arith))
]

-- The six rounds turn a number of `t` binary digits into `t` ones.
smear_all :
    (t n : ℕ)
    → t ≤ 64
    → Ones t 1 n
    → suc (smear 32 (smear 16 (smear 8 (smear 4 (smear 2 (smear 1 n)))))) ≡ 2 ^ t
smear_all t n h o =
    let o1 = smear-Ones t 1 n o in
    let o2 = smear-Ones t 2 _ o1 in
    let o4 = smear-Ones t 4 _ o2 in
    let o8 = smear-Ones t 8 _ o4 in
    let o16 = smear-Ones t 16 _ o8 in
    let o32 = smear-Ones t 32 _ o16 in
    let e : t - (32 + 32) ≡ 0 = omega arith in omega (arith, o32, ap (λ k. 2 ^ k) e)

round_one : round_to_power_of_2 1 ≡ 1
unfolding round_to_power_of_2 smear
round_one = refl

-- A size from 1 to 2 ^ 63 is rounded to a power of two that is not below the size and is less
-- than twice it.
pub round_to_power_of_2_lem :
    (n : ℕ)
    → 0 < n
    → n ≤ 2 ^ 63
    → (k : ℕ) × (k ≤ 63)
      × (round_to_power_of_2 n ≡ 2 ^ k)
      × (n ≤ round_to_power_of_2 n)
      × (round_to_power_of_2 n < 2 * n)
unfolding round_to_power_of_2
round_to_power_of_2_lem n h k = elim (dec_lt 1 n) [
  | yes big ↦
      let (t, small, low, high) = two_pow_bracket 63 (n - 1) (omega arith) (omega arith) in
      let minus : sub64 n 1 ≡ n - 1 = omega arith in
      let e : suc t - 1 ≡ t = omega arith in
      let ones : Ones (suc t) 1 (n - 1) = (omega (arith, pow-suc 2 t, ap (λ k. 2 ^ k) e), high) in
      let all = smear_all (suc t) (n - 1) (omega arith) ones in
      let mono = pow-le-pow_right {n = 2} (omega arith) {i = suc t} {j = 63} (omega arith) in
      let sum : round_to_power_of_2 n ≡ 2 ^ suc t = rw minus (omega (arith, all, mono)) in
      (suc t, omega arith, sum, omega (arith, sum), omega (arith, sum, pow-suc 2 t))
  | no one ↦
      let e : n ≡ 1 = omega arith in
      let sum = ap round_to_power_of_2 e ∙ round_one in
      (0, omega arith, sum, omega (arith, sum), omega (arith, sum))
]
