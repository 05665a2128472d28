-- ===== src/Prelude/Words.antt =====
-- Machine words as native numbers: the moduli, wrapping arithmetic and byte order.
use Prim.Native.Nat.{ℕ, ◌+◌, ◌-◌, ◌*◌, ◌/◌, ◌%◌, ◌^◌, ◌<◌}
use mathlib.Core.Path.{◌≡◌, refl}
use native.Mathlib.Omega.{arith}

abbrev pub u8_mod : ℕ
u8_mod = 2 ^ 8

abbrev pub u16_mod : ℕ
u16_mod = 2 ^ 16

abbrev pub u32_mod : ℕ
u32_mod = 2 ^ 32

-- `usize` and `u64`
abbrev pub u64_mod : ℕ
u64_mod = 2 ^ 64

-- `wrapping_add` and `wrapping_sub`; `-` on ℕ stops at 0, so the modulus is added first.
abbrev pub add32 : ℕ → ℕ → ℕ
add32 a b = (a + b) % u32_mod

abbrev pub add64 : ℕ → ℕ → ℕ
add64 a b = (a + b) % u64_mod

abbrev pub sub32 : ℕ → ℕ → ℕ
sub32 a b = (a + u32_mod - b) % u32_mod

abbrev pub sub64 : ℕ → ℕ → ℕ
sub64 a b = (a + u64_mod - b) % u64_mod

infixl 75 ◌<<<◌ ◌>>>◌
abbrev pub ◌<<<◌ : ℕ → ℕ → ℕ
x <<< k = x * 2 ^ k

abbrev pub ◌>>>◌ : ℕ → ℕ → ℕ
x >>> k = x / 2 ^ k

-- `!m` on a word of 8, 32 and 64 bits
abbrev pub not8 : ℕ → ℕ
not8 m = 2 ^ 8 - 1 - m

abbrev pub not16 : ℕ → ℕ
not16 m = 2 ^ 16 - 1 - m

abbrev pub not32 : ℕ → ℕ
not32 m = 2 ^ 32 - 1 - m

abbrev pub not64 : ℕ → ℕ
not64 m = 2 ^ 64 - 1 - m

-- `u16::to_be` and `u16::from_be` on a little-endian host: the two bytes change places.
unfoldable pub swap16 : ℕ → ℕ
swap16 x = x % 256 * 256 + x / 256

-- `u32::to_be` and `u32::from_be` on a little-endian host.
unfoldable pub swap32 : ℕ → ℕ
swap32 x = x % 256 * 2 ^ 24 + x / 256 % 256 * 2 ^ 16 + x / 2 ^ 16 % 256 * 256 + x / 2 ^ 24

pub swap16-swap16 : (x : ℕ) → x < 2 ^ 16 → swap16 (swap16 x) ≡ x
unfolding swap16
swap16-swap16 x h = omega arith

pub swap16-lt : (x : ℕ) → x < 2 ^ 16 → swap16 x < 2 ^ 16
unfolding swap16
swap16-lt x h = omega arith

pub swap32-swap32 : (x : ℕ) → x < 2 ^ 32 → swap32 (swap32 x) ≡ x
unfolding swap32
swap32-swap32 x h = omega arith

pub swap32-lt : (x : ℕ) → x < 2 ^ 32 → swap32 x < 2 ^ 32
unfolding swap32
swap32-lt x h = omega arith

pub swap32_lem :
    (x : ℕ)
    → swap32 x ≡ x % 256 * 2 ^ 24 + x / 256 % 256 * 2 ^ 16 + x / 2 ^ 16 % 256 * 256 + x / 2 ^ 24
unfolding swap32
swap32_lem x = refl

pub swap16_lem : (x : ℕ) → swap16 x ≡ x % 256 * 256 + x / 256
unfolding swap16
swap16_lem x = refl
