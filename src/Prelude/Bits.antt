-- ===== src/Prelude/Bits.antt =====
-- Laws of `&` and `|` at variables: the digit recursion, low masks, complements and bit fields.
use Prim.Native.Nat.{ℕ, zero, suc, ◌+◌, ◌-◌, ◌*◌, ◌/◌, ◌%◌, ◌^◌, ◌≤◌, ◌<◌, min, max}
use Prim.Native.Nat.{bit_and, bit_or, digits, bit_and-bitwise, bit_or-bitwise}
use mathlib.Core.Path.{◌≡◌, refl, sym, ap, ◌∙◌}
use mathlib.Core.Logic.{◌≢◌}
use native.Mathlib.Nat.{pow-suc, one-le-pow, div-add-mod', mod-lt, mod-eq_of_lt, mul_comm}
use native.Mathlib.Nat.{mul-add-mod_self_right, div-div-eq-div-mul}
use native.Mathlib.Decide.{dec_lt}
use native.Mathlib.Omega.{arith}

-- Any two amounts of fuel that cover the first number give the same digits.
module _ (rest : ℕ → ℕ) (digit : ℕ → ℕ → ℕ) where
  digits_enough :
      (b m n a : ℕ) → (a ≤ m) × (a ≤ n) → digits rest digit m a b ≡ digits rest digit n a b
  digits_enough b (suc m) (suc n) (suc a) (p, q) =
      ap (λ (t : ℕ). t * 2 + digit (suc a % 2) (b % 2))
        (digits_enough (b / 2) m n (suc a / 2) (omega (arith, p), omega (arith, q)))
  digits_enough b (suc m) zero (suc a) (p, q) = elim q [ ]
  digits_enough b zero n (suc a) (p, q) = elim p [ ]
  digits_enough b (suc m) (suc n) zero e = refl
  digits_enough b (suc m) zero zero e = refl
  digits_enough b zero (suc n) zero e = refl
  digits_enough b zero zero zero e = refl

-- The lowest digit of both operations, and the digits above it.
lowest_digit :
    (a b : ℕ)
    → (bit_or a b ≡ bit_or (a / 2) (b / 2) * 2 + max (a % 2) (b % 2))
      × (bit_and a b ≡ bit_and (a / 2) (b / 2) * 2 + min (a % 2) (b % 2))
lowest_digit zero b = (simp bit_or-bitwise (omega arith), simp bit_and-bitwise (omega arith))
lowest_digit (suc a) b =
    let half : ℕ = suc a / 2 in
    let above : (half ≤ a) × (half ≤ half) = (omega arith, omega arith) in
    let ors = digits_enough (λ y. y) max (b / 2) a half half above in
    let ands = digits_enough (λ y. 0) min (b / 2) a half half above in
    (
      omega (arith, ors, bit_or-bitwise (suc a) b, bit_or-bitwise half (b / 2)),
      omega (arith, ands, bit_and-bitwise (suc a) b, bit_and-bitwise half (b / 2)),
    )

pub bit_and_step : (a b : ℕ) → bit_and a b ≡ bit_and (a / 2) (b / 2) * 2 + min (a % 2) (b % 2)
bit_and_step a b = (lowest_digit a b).1

pub bit_or_step : (a b : ℕ) → bit_or a b ≡ bit_or (a / 2) (b / 2) * 2 + max (a % 2) (b % 2)
bit_or_step a b = (lowest_digit a b).0

-- A law of both operations is proved by induction on the number `k` of binary digits.
bit_and-zero_fuel : (k a : ℕ) → a < 2 ^ k → bit_and a 0 ≡ 0
bit_and-zero_fuel zero a h = let e : a ≡ 0 = omega arith in rw e
bit_and-zero_fuel (suc k) a h =
    omega (arith, pow-suc 2 k, bit_and_step a 0, bit_and-zero_fuel k (a / 2))

lt-two-pow : (a : ℕ) → a < 2 ^ a
lt-two-pow zero = omega arith
lt-two-pow (suc a) = omega (arith, pow-suc 2 a, lt-two-pow a)

pub bit_and-zero : (a : ℕ) → bit_and a 0 ≡ 0
bit_and-zero a = bit_and-zero_fuel a a (lt-two-pow a)

bit_or-zero_fuel : (k a : ℕ) → a < 2 ^ k → bit_or a 0 ≡ a
bit_or-zero_fuel zero a h = let e : a ≡ 0 = omega arith in rw e
bit_or-zero_fuel (suc k) a h =
    omega (arith, pow-suc 2 k, bit_or_step a 0, bit_or-zero_fuel k (a / 2))

pub bit_or-zero : (a : ℕ) → bit_or a 0 ≡ a
bit_or-zero a = bit_or-zero_fuel a a (lt-two-pow a)

pub zero-bit_or : (b : ℕ) → bit_or 0 b ≡ b
zero-bit_or b = bit_or-bitwise 0 b

pub zero-bit_and : (b : ℕ) → bit_and 0 b ≡ 0
zero-bit_and b = bit_and-bitwise 0 b

bit_or-bounds_fuel :
    (k a b : ℕ) → a < 2 ^ k → b < 2 ^ k → (a ≤ bit_or a b) × (b ≤ bit_or a b) × (bit_or a b < 2 ^ k)
bit_or-bounds_fuel zero a b p q =
    let e : a ≡ 0 = omega arith in let d : b ≡ 0 = omega arith in rw (e, d) (omega arith)
bit_or-bounds_fuel (suc k) a b p q =
    let ih =
      bit_or-bounds_fuel k (a / 2) (b / 2) (omega (arith, pow-suc 2 k))
        (omega (arith, pow-suc 2 k)) in
    omega (arith, pow-suc 2 k, bit_or_step a b, ih)

-- `|` keeps within the bits of its operands, and is at least each of them.
pub bit_or_bounds :
    (k a b : ℕ) → a < 2 ^ k → b < 2 ^ k → (a ≤ bit_or a b) × (b ≤ bit_or a b) × (bit_or a b < 2 ^ k)
bit_or_bounds = bit_or-bounds_fuel

-- Low bits are kept apart from the bits above them.
pub bit_or_high :
    (s q r b : ℕ) → r < 2 ^ s → b < 2 ^ s → bit_or (q * 2 ^ s + r) b ≡ q * 2 ^ s + bit_or r b
bit_or_high zero q r b p h =
    let e : r ≡ 0 = omega arith in
    let d : b ≡ 0 = omega arith in rw (e, d) (omega (arith, bit_or-zero (q * 2 ^ 0 + 0)))
bit_or_high (suc s) q r b p h =
    let twice : q * 2 ^ suc s ≡ 2 * (q * 2 ^ s) =
      omega (arith, ap (λ (t : ℕ). q * t) (pow-suc 2 s)) in
    let half : (q * 2 ^ suc s + r) / 2 ≡ q * 2 ^ s + r / 2 = omega arith in
    let odd : (q * 2 ^ suc s + r) % 2 ≡ r % 2 = omega arith in
    let ih =
      bit_or_high s q (r / 2) (b / 2) (omega (arith, pow-suc 2 s)) (omega (arith, pow-suc 2 s)) in
    rw (bit_or_step (q * 2 ^ suc s + r) b, half, odd, ih) (omega (arith, bit_or_step r b))

-- The remainder by twice a number, from the halves.
mod_twice : (a m : ℕ) → 0 < m → a % (m * 2) ≡ a / 2 % m * 2 + a % 2
mod_twice a m h =
    let q : ℕ = a / 2 / m in
    let r : ℕ = a / 2 % m * 2 + a % 2 in
    let split : a ≡ q * (m * 2) + r = omega (arith, div-add-mod' (a / 2) m) in
    let small : r < m * 2 = omega (arith, mod-lt (a / 2) h) in
    ap (λ t. t % (m * 2)) split ∙ mul-add-mod_self_right q (m * 2) r ∙ mod-eq_of_lt small

-- A mask of `k` low bits is the remainder by `2 ^ k`.
pub bit_and_mask : (k a : ℕ) → bit_and a (2 ^ k - 1) ≡ a % 2 ^ k
bit_and_mask zero a = omega (arith, bit_and-zero a)
bit_and_mask (suc k) a =
    let p = pow-suc 2 k in
    let pos = one-le-pow k 2 (omega arith) in
    let half : (2 ^ suc k - 1) / 2 ≡ 2 ^ k - 1 = omega arith in
    let odd : (2 ^ suc k - 1) % 2 ≡ 1 = omega arith in
    rw
      (
        bit_and_step a (2 ^ suc k - 1),
        half,
        odd,
        bit_and_mask k (a / 2),
        p,
        mod_twice a (2 ^ k) pos,
      )
      (omega arith)

times-two-pow : (x s : ℕ) → x * 2 ^ suc s ≡ 2 * (x * 2 ^ s)
times-two-pow x s = omega (arith, ap (λ (t : ℕ). x * t) (pow-suc 2 s))

-- The field of `k` bits above `s` low ones, cut out by its mask.
pub bit_and_field : (s k a : ℕ) → bit_and a ((2 ^ k - 1) * 2 ^ s) ≡ a / 2 ^ s % 2 ^ k * 2 ^ s
bit_and_field zero k a =
    let e : (2 ^ k - 1) * 2 ^ 0 ≡ 2 ^ k - 1 = omega arith in
    let d : a / 2 ^ 0 ≡ a = omega arith in rw (e, d, bit_and_mask k a) (omega arith)
bit_and_field (suc s) k a =
    let m = times-two-pow (2 ^ k - 1) s in
    let half : (2 ^ k - 1) * 2 ^ suc s / 2 ≡ (2 ^ k - 1) * 2 ^ s = omega arith in
    let even : (2 ^ k - 1) * 2 ^ suc s % 2 ≡ 0 = omega arith in
    let shift : a / 2 ^ suc s ≡ a / 2 / 2 ^ s =
      ap (λ (t : ℕ). a / t) (pow-suc 2 s ∙ mul_comm (2 ^ s) 2)
      ∙ sym (div-div-eq-div-mul a 2 (2 ^ s)) in
    rw (bit_and_step a ((2 ^ k - 1) * 2 ^ suc s), half, even, bit_and_field s k (a / 2), shift)
      (omega (arith, times-two-pow (a / 2 / 2 ^ s % 2 ^ k) s))

-- A mask and its complement share a word out.
pub bit_and_not : (k a m : ℕ) → a < 2 ^ k → m < 2 ^ k → bit_and a (2 ^ k - 1 - m) + bit_and a m ≡ a
bit_and_not zero a m p q =
    let e : a ≡ 0 = omega arith in
    rw e (omega (arith, zero-bit_and m, zero-bit_and (2 ^ 0 - 1 - m)))
bit_and_not (suc k) a m p q =
    let w = pow-suc 2 k in
    let half : (2 ^ suc k - 1 - m) / 2 ≡ 2 ^ k - 1 - m / 2 = omega arith in
    let odd : (2 ^ suc k - 1 - m) % 2 ≡ 1 - m % 2 = omega arith in
    rw (bit_and_step a (2 ^ suc k - 1 - m), half, odd)
      (omega (arith, bit_and_step a m, bit_and_not k (a / 2) (m / 2)))

-- A value of `k` bits, put in above `s` low bits where the field is clear.
pub bit_or_field :
    (s k q v r : ℕ)
    → r < 2 ^ s
    → v < 2 ^ k
    → bit_or (q * 2 ^ k * 2 ^ s + r) (v * 2 ^ s) ≡ (q * 2 ^ k + v) * 2 ^ s + r
bit_or_field zero k q v r p h =
    let e : q * 2 ^ k * 2 ^ 0 + r ≡ q * 2 ^ k + 0 = omega arith in
    let d : v * 2 ^ 0 ≡ v = omega arith in
    rw (e, d, bit_or_high k q 0 v (omega arith) h, zero-bit_or v) (omega arith)
bit_or_field (suc s) k q v r p h =
    let m = times-two-pow (q * 2 ^ k) s in
    let n = times-two-pow v s in
    let half : (q * 2 ^ k * 2 ^ suc s + r) / 2 ≡ q * 2 ^ k * 2 ^ s + r / 2 = omega arith in
    let odd : (q * 2 ^ k * 2 ^ suc s + r) % 2 ≡ r % 2 = omega arith in
    let half' : v * 2 ^ suc s / 2 ≡ v * 2 ^ s = omega arith in
    let even : v * 2 ^ suc s % 2 ≡ 0 = omega arith in
    let ih = bit_or_field s k q v (r / 2) (omega (arith, pow-suc 2 s)) h in
    rw (bit_or_step (q * 2 ^ k * 2 ^ suc s + r) (v * 2 ^ suc s), half, odd, half', even, ih)
      (omega (arith, times-two-pow (q * 2 ^ k + v) s))

-- Overwriting a field of an `n`-bit word: `w & !mask | v << s` as arithmetic.
pub put_field :
    (n s k w v : ℕ)
    → w < 2 ^ n
    → (2 ^ k - 1) * 2 ^ s < 2 ^ n
    → v < 2 ^ k
    → bit_or (bit_and w (2 ^ n - 1 - (2 ^ k - 1) * 2 ^ s)) (v * 2 ^ s)
      ≡ (w / 2 ^ s / 2 ^ k * 2 ^ k + v) * 2 ^ s + w % 2 ^ s
put_field n s k w v hw hm hv =
    let hi : ℕ = w / 2 ^ s / 2 ^ k in
    let low = div-add-mod' w (2 ^ s) in
    let high = ap (λ (t : ℕ). t * 2 ^ s) (div-add-mod' (w / 2 ^ s) (2 ^ k)) in
    let clear : bit_and w (2 ^ n - 1 - (2 ^ k - 1) * 2 ^ s) ≡ hi * 2 ^ k * 2 ^ s + w % 2 ^ s =
      omega (arith, bit_and_not n w ((2 ^ k - 1) * 2 ^ s) hw hm, bit_and_field s k w, low, high) in
    rw clear (bit_or_field s k hi v (w % 2 ^ s) (mod-lt w (one-le-pow s 2 (omega arith))) hv)

pub two-pow-add : (a b : ℕ) → 2 ^ (a + b) ≡ 2 ^ a * 2 ^ b
two-pow-add zero b = let e : 0 + b ≡ b = omega arith in rw e (omega arith)
two-pow-add (suc a) b =
    let e : suc a + b ≡ suc (a + b) = omega arith in
    rw e
      (omega (arith, pow-suc 2 (a + b), ap (λ (t : ℕ). t * 2 ^ b) (pow-suc 2 a), two-pow-add a b))

-- The length of a positive number in binary digits.
pub two_pow_bracket :
    (w n : ℕ) → 0 < n → n < 2 ^ w → (t : ℕ) × (t < w) × (2 ^ t ≤ n) × (n < 2 ^ suc t)
two_pow_bracket zero n h k = absurd (omega arith)
two_pow_bracket (suc w) n h k = elim (dec_lt n (2 ^ w)) [
  | yes small ↦ let (t, a, b, c) = two_pow_bracket w n h small in (t, omega arith, b, c)
  | no big ↦ (w, omega arith, omega arith, k)
]

-- Binary digits one by one.
abbrev pub bit : ℕ → ℕ → ℕ
bit j a = a / 2 ^ j % 2

bit-suc : (j a : ℕ) → bit (suc j) a ≡ bit j (a / 2)
bit-suc j a =
    ap (λ (t : ℕ). a / t % 2) (pow-suc 2 j ∙ mul_comm (2 ^ j) 2)
    ∙ sym (ap (λ (t : ℕ). t % 2) (div-div-eq-div-mul a 2 (2 ^ j)))

pub bit-bit_or : (j a b : ℕ) → bit j (bit_or a b) ≡ max (bit j a) (bit j b)
bit-bit_or zero a b = omega (arith, bit_or_step a b)
bit-bit_or (suc j) a b =
    let half : bit_or a b / 2 ≡ bit_or (a / 2) (b / 2) = omega (arith, bit_or_step a b) in
    rw (bit-suc j (bit_or a b), half, bit-suc j a, bit-suc j b) (bit-bit_or j (a / 2) (b / 2))

pub bit-bit_and : (j a b : ℕ) → bit j (bit_and a b) ≡ min (bit j a) (bit j b)
bit-bit_and zero a b = omega (arith, bit_and_step a b)
bit-bit_and (suc j) a b =
    let half : bit_and a b / 2 ≡ bit_and (a / 2) (b / 2) = omega (arith, bit_and_step a b) in
    rw (bit-suc j (bit_and a b), half, bit-suc j a, bit-suc j b) (bit-bit_and j (a / 2) (b / 2))

pub bit-two_pow_self : (k : ℕ) → bit k (2 ^ k) ≡ 1
bit-two_pow_self zero = refl
bit-two_pow_self (suc k) =
    let half : 2 ^ suc k / 2 ≡ 2 ^ k = omega (arith, pow-suc 2 k) in
    rw (bit-suc k (2 ^ suc k), half) (bit-two_pow_self k)

bit-zero : (j : ℕ) → bit j 0 ≡ 0
bit-zero zero = refl
bit-zero (suc j) = rw (bit-suc j 0) (bit-zero j)

pub bit-two_pow_other : (j k : ℕ) → j ≢ k → bit j (2 ^ k) ≡ 0
bit-two_pow_other zero zero ne = absurd (ne refl)
bit-two_pow_other zero (suc k) ne = omega (arith, pow-suc 2 k)
bit-two_pow_other (suc j) zero ne = rw (bit-suc j 1) (bit-zero j)
bit-two_pow_other (suc j) (suc k) ne =
    let half : 2 ^ suc k / 2 ≡ 2 ^ k = omega (arith, pow-suc 2 k) in
    rw (bit-suc j (2 ^ suc k), half) (bit-two_pow_other j k (λ e. ne (ap suc e)))

-- The complement within `n` bits.
pub bit-not : (j n m : ℕ) → j < n → m < 2 ^ n → bit j (2 ^ n - 1 - m) ≡ 1 - bit j m
bit-not zero zero m p q = absurd (omega arith)
bit-not (suc j) zero m p q = absurd (omega arith)
bit-not zero (suc n) m p q = omega (arith, pow-suc 2 n)
bit-not (suc j) (suc n) m p q =
    let half : (2 ^ suc n - 1 - m) / 2 ≡ 2 ^ n - 1 - m / 2 = omega (arith, pow-suc 2 n) in
    rw (bit-suc j (2 ^ suc n - 1 - m), half, bit-suc j m)
      (bit-not j n (m / 2) (omega arith) (omega (arith, pow-suc 2 n)))
