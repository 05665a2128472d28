-- ===== src/Functions/Maglev.antt =====
-- The lookup table of test/maglev/src/nf.rs. The two hashes of a name are an argument.
mod Tests
pub mod Slots
pub mod Filled
pub mod Turns
use net_bricks.Prelude.{
  ℕ, zero, suc, ◌+◌, ◌-◌, ◌*◌, ◌%◌, ◌^◌, List, [], ◌∷◌, Bool, true, false, Option, none, some, map,
  length, get_elem?, set, drop, replicate, ltb, leb, ◌==◌, if◌then◌else◌,
}
use net_bricks.Prelude.Run.{Run, returns, panics, out_of_fuel, bind, or_panic}

-- The mark of a slot that is not filled.
abbrev pub free : ℕ
free = 0x8000

pub record Maglev : Type 0 where
  pub lut : List ℕ
  pub lut_size : ℕ

-- A remainder by zero panics.
unfoldable pub offset_skip_for_name : ℕ × ℕ → ℕ → Run (ℕ × ℕ)
offset_skip_for_name (hash1, hash2) lsize =
    if ltb 1 lsize then returns (hash2 % lsize, hash1 % (lsize - 1) + 1) else panics

unfoldable pub permutation : ℕ → ℕ → ℕ → ℕ → ℕ → List ℕ
permutation offset skip lsize zero j = []
permutation offset skip lsize (suc left) j =
    (((offset + (j * skip) % 2 ^ 64) % 2 ^ 64) % lsize) ∷ permutation offset skip lsize left (suc j)

unfoldable pub generate_permutations : List (ℕ × ℕ) → ℕ → Run (List (List ℕ))
unfolding permutation offset_skip_for_name
generate_permutations [] lsize = returns []
generate_permutations (hashes ∷ backends) lsize =
    bind (offset_skip_for_name hashes lsize) λ (offset, skip).
      bind (generate_permutations backends lsize)
        λ rest. returns (permutation offset skip lsize lsize 0 ∷ rest)

-- What the loops of `generate_lut` change.
pub record Filling : Type 0 where
  pub next : List ℕ
  pub entry : List ℕ
  pub n : ℕ

-- The inner `while`, on what is left of the permutation from `k` on: the first free slot.
unfoldable pub seek : List ℕ → List ℕ → ℕ → Run (ℕ × ℕ)
seek [] entry k = panics
seek (c ∷ rest) entry k =
    bind (or_panic (get_elem? entry c))
      λ e. elim (e == free) [ true ↦ returns (k, c) | false ↦ seek rest entry (suc k) ]

-- The body of the `for`, up to its `break`.
unfoldable pub turn : List (List ℕ) → ℕ → Filling → Run Filling
turn permutations i s = bind (or_panic (get_elem? permutations i)) λ row.
    bind (or_panic (get_elem? s.next i)) λ k. bind (seek (drop k row) s.entry k) λ (k', c).
      returns (record { next = set s.next i (k' + 1); entry = set s.entry c i; n = s.n + 1 })

-- The `for`, with the backends that are left and the next one.
unfoldable pub pass : List (List ℕ) → ℕ → ℕ → ℕ → Filling → Run Filling
pass permutations size zero i s = returns s
pass permutations size (suc left) i s =
    bind (turn permutations i s)
      λ s. elim (leb size s.n) [ true ↦ returns s | false ↦ pass permutations size left (suc i) s ]

-- The outer `while`.
unfoldable pub fill : ℕ → List (List ℕ) → ℕ → Filling → Run Filling
fill zero permutations size s = out_of_fuel
fill (suc fuel) permutations size s = elim (ltb s.n size) [
  | true ↦ bind (pass permutations size (length s.next) 0 s) (fill fuel permutations size)
  | false ↦ returns s
]

abbrev pub start : List (List ℕ) → ℕ → Filling
start permutations size = record {
  next = map (λ _. 0) permutations;
  entry = replicate size free;
  n = 0;
}

unfoldable pub generate_lut : ℕ → List (List ℕ) → ℕ → Run (List ℕ)
generate_lut fuel permutations size =
    bind (fill fuel permutations size (start permutations size)) λ s. returns s.entry

abbrev pub new : ℕ → List (ℕ × ℕ) → ℕ → Run Maglev
new fuel names lsize = bind (generate_permutations names lsize) λ permutations.
    bind (generate_lut fuel permutations lsize)
      λ lut. returns (record { lut = lut; lut_size = lsize })

unfoldable pub lookup : Maglev → ℕ → Run ℕ
lookup m hash = if m.lut_size == 0 then panics else or_panic (get_elem? m.lut (hash % m.lut_size))
