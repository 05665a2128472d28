-- ===== src/Functions/Lpm/Cells.antt =====
-- The cells of the tables of test/lpm/src/nf.rs: what a loop over a range writes, and the mark of an
-- entry that stands for a block of the long table.
use native.Mathlib.Decide.{ℕ_discrete}
use net_bricks.Prelude.{
  sym, ap, ◌∙◌, ℕ, zero, suc, ◌+◌, ◌*◌, ◌/◌, ◌%◌, ◌^◌, ◌<◌, ◌≤◌, ◌≡◌, refl, bit_and, bit_or, List,
  true, arith, length, length-set, get_or, get_or-set_self, get_or-set_ne, set, ltb, bit_and_mask,
  bit_and_field, bit_or_field,
}
use net_bricks.Prelude.Run.{returns}
use net_bricks.Functions.Lpm.{store_all}

pub record Stored (f : ℕ → ℕ) (n j : ℕ) (cells : List ℕ) : Type 0 where
  pub cells' : List ℕ
  pub run : store_all f n j cells ≡ returns cells'
  pub count : length cells' ≡ length cells
  pub inside : (x : ℕ) → j ≤ x → x < j + n → get_or cells' x 0 ≡ f x
  pub before : (x : ℕ) → x < j → get_or cells' x 0 ≡ get_or cells x 0
  pub behind : (x : ℕ) → j + n ≤ x → get_or cells' x 0 ≡ get_or cells x 0

pub store_all_lem :
    (f : ℕ → ℕ) (n j : ℕ) (cells : List ℕ) → j + n ≤ length cells → Stored f n j cells
unfolding store_all
store_all_lem f zero j cells h = record {
  cells' = cells;
  run = refl;
  count = refl;
  inside = λ x l u. absurd (omega arith);
  before = λ x l. refl;
  behind = λ x l. refl;
}
store_all_lem f (suc n) j cells h =
    let in_range : ltb j (length cells) ≡ true = ground arith in
    let same = length-set cells j (f j) in
    let s = store_all_lem f n (suc j) (set cells j (f j)) (omega arith) in
    let own = get_or-set_self cells j (f j) 0 (omega arith) in
    record {
      cells' = s.cells';
      run = rw (in_range) s.run;
      count = s.count ∙ same;
      inside = λ x l u. elim (ℕ_discrete j x) [
        | yes e ↦ ap (λ y. get_or s.cells' y 0) (sym e) ∙ s.before j (omega arith) ∙ own ∙ ap f e
        | no ne ↦ s.inside x (omega arith) (omega arith)
      ];
      before = λ x l. s.before x (omega arith) ∙ get_or-set_ne cells j x (f j) 0 (omega arith);
      behind = λ x l. s.behind x (omega arith) ∙ get_or-set_ne cells j x (f j) 0 (omega arith);
    }

-- The mark
pub unmarked : (e : ℕ) → e < 2 ^ 15 → bit_and e 0x8000 ≡ 0
unmarked e h = omega (arith, bit_and_field 15 1 e)

pub marked : (b : ℕ) → b < 2 ^ 15 → bit_and (b + 2 ^ 15) 0x8000 ≡ 2 ^ 15
marked b h = omega (arith, bit_and_field 15 1 (b + 2 ^ 15))

pub block_of : (b : ℕ) → b < 2 ^ 15 → bit_and (b + 2 ^ 15) 0x7fff ≡ b
block_of b h = omega (arith, bit_and_mask 15 (b + 2 ^ 15))

pub mark : (b : ℕ) → b < 2 ^ 15 → bit_or (b * 256 / 2 ^ 8 % 2 ^ 16) 0x8000 ≡ b + 2 ^ 15
mark b h =
    let same : b * 256 / 2 ^ 8 % 2 ^ 16 ≡ b = omega arith in
    let padded : b ≡ 0 * 2 ^ 1 * 2 ^ 15 + b = omega arith in
    let field = bit_or_field 15 1 0 1 b h (omega arith) in
    rw (same) (ap (λ (t : ℕ). bit_or t 0x8000) padded ∙ field ∙ omega arith)

pub low_byte : (k : ℕ) → bit_and k 0xff ≡ k % 256
low_byte k = bit_and_mask 8 k

-- A prefix of at least 25 bits lies within 256 addresses.
pub aligned_fits : (n q : ℕ) → n < 8 → (q * 2 ^ n) % 256 + 2 ^ n ≤ 256
aligned_fits zero q h = omega arith
aligned_fits (suc zero) q h = omega arith
aligned_fits (suc (suc zero)) q h = omega arith
aligned_fits (suc (suc (suc zero))) q h = omega arith
aligned_fits (suc (suc (suc (suc zero)))) q h = omega arith
aligned_fits (suc (suc (suc (suc (suc zero))))) q h = omega arith
aligned_fits (suc (suc (suc (suc (suc (suc zero)))))) q h = omega arith
aligned_fits (suc (suc (suc (suc (suc (suc (suc zero))))))) q h = omega arith
aligned_fits (suc (suc (suc (suc (suc (suc (suc (suc n)))))))) q h = absurd (omega arith)
