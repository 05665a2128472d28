-- ===== src/Functions/Lpm/Shown.antt =====
-- What the tables of test/lpm/src/nf.rs show: the gate of every address.
use net_bricks.Prelude.{
  ℕ, ◌+◌, ◌*◌, ◌/◌, ◌%◌, ◌^◌, ◌<◌, ◌≤◌, ◌≡◌, sym, ap, ◌∙◌, bit_and, false, arith, length, get_or,
  get_elem?-eq-get_or, ltb,
}
use net_bricks.Prelude.Run.{returns}
use net_bricks.Functions.Lpm.{IpLookup, tbl24_size, lookup_entry}
use net_bricks.Functions.Lpm.Cells.{unmarked, marked, block_of, low_byte}

-- An entry of the first table, for 256 addresses: their gate, or the mark and a block of the long
-- table with the gate of each. There are `n` blocks.
pub data Entry (t : IpLookup) (gates : ℕ → ℕ) (n a : ℕ) : Type 0 where
  direct :
      get_or t.tbl24 a 0 < 2 ^ 15
      → ((x : ℕ) → x < 256 → gates (a * 256 + x) ≡ get_or t.tbl24 a 0)
      → Entry t gates n a
  block :
      (b : ℕ)
      → b < n
      → get_or t.tbl24 a 0 ≡ b + 2 ^ 15
      → ((x : ℕ) → x < 256 → gates (a * 256 + x) ≡ get_or t.tbl_long (b * 256 + x) 0)
      → Entry t gates n a

-- No two entries share a block.
pub record Shown (t : IpLookup) (gates : ℕ → ℕ) (n : ℕ) : Type 0 where
  pub size24 : length t.tbl24 ≡ tbl24_size
  pub size_long : length t.tbl_long ≡ tbl24_size
  pub current : t.current_tbl_long ≡ n * 256
  pub few : n ≤ 2 ^ 15
  pub entry : (a : ℕ) → a < 2 ^ 24 → Entry t gates n a
  pub own :
      (a c : ℕ)
      → a < 2 ^ 24
      → c < 2 ^ 24
      → 2 ^ 15 ≤ get_or t.tbl24 a 0
      → get_or t.tbl24 a 0 ≡ get_or t.tbl24 c 0
      → a ≡ c

lookup_entry-Entry :
    (t : IpLookup) (gates : ℕ → ℕ) (n ip : ℕ)
    → Shown t gates n
    → ip < 2 ^ 32
    → Entry t gates n (ip / 256)
    → lookup_entry t ip ≡ returns (gates ip)
unfolding lookup_entry
lookup_entry-Entry t gates n ip s h (direct small shows) =
    let got = get_elem?-eq-get_or t.tbl24 (ip / 256) 0 (omega (arith, s.size24)) in
    let split : ip / 256 * 256 + ip % 256 ≡ ip = omega arith in
    let g = shows (ip % 256) (omega arith) in
    let low : ltb 0 (bit_and (get_or t.tbl24 (ip / 256) 0) 0x8000) ≡ false =
      ap (ltb 0) (unmarked _ small) in
    rw (got, low) (ap returns (sym g ∙ ap gates split))
lookup_entry-Entry t gates n ip s h (block b few is shows) =
    let got = get_elem?-eq-get_or t.tbl24 (ip / 256) 0 (omega (arith, s.size24)) in
    let g = shows (ip % 256) (omega arith) in
    let got' = get_elem?-eq-get_or t.tbl_long (b * 256 + ip % 256) 0 (omega (arith, s.size_long)) in
    let split : ip / 256 * 256 + ip % 256 ≡ ip = omega arith in
    let b15 : b < 2 ^ 15 = omega (arith, s.few) in
    rw (got, is, marked b b15, block_of b b15, low_byte ip, got')
      (ap returns (sym g ∙ ap gates split))

pub lookup_entry-Shown :
    (t : IpLookup) (gates : ℕ → ℕ) (n ip : ℕ)
    → Shown t gates n
    → ip < 2 ^ 32
    → lookup_entry t ip ≡ returns (gates ip)
lookup_entry-Shown t gates n ip s h =
    lookup_entry-Entry t gates n ip s h (s.entry (ip / 256) (omega arith))
