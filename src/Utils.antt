-- ===== src/Utils.antt =====
-- framework/src/utils/mod.rs: rounding of buffer sizes.
mod Tests
pub mod Rounding
use Prim.Native.Nat.{bit_and, bit_or}
use net_bricks.Prelude.{ℕ, ◌-◌, add64, sub64, not64, ◌>>>◌}

-- `PAGE_SIZE`
abbrev pub page_size : ℕ
page_size = 4096

pub round_to_pages : ℕ → ℕ
round_to_pages buffer_size = bit_and (add64 buffer_size (page_size - 1)) (not64 (page_size - 1))

-- `size |= size >> k`
pub smear : ℕ → ℕ → ℕ
smear k size = bit_or size (size >>> k)

pub round_to_power_of_2 : ℕ → ℕ
round_to_power_of_2 size =
    let size = sub64 size 1 in
    let size = smear 1 size in
    let size = smear 2 size in
    let size = smear 4 size in
    let size = smear 8 size in let size = smear 16 size in let size = smear 32 size in add64 size 1
