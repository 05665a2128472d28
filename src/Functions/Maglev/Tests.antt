-- ===== src/Functions/Maglev/Tests.antt =====
-- A table of test/maglev/src/nf.rs with three slots and two backends.
use mathlib.Core.Path.{subst}
use net_bricks.Prelude.{ℕ, zero, suc, ◌<◌, ◌≡◌, refl, List, [], ◌∷◌, some, arith, length, get_elem?}
use net_bricks.Prelude.Run.{returns}
use net_bricks.Functions.Maglev.{generate_lut, lookup, fill, pass, turn, seek}
use net_bricks.Functions.Maglev.Turns.{Covers}
use net_bricks.Functions.Maglev.Filled.{lookup-generate_lut}

abbrev first : List ℕ
first = 0 ∷ 1 ∷ 2 ∷ []

abbrev second : List ℕ
second = 1 ∷ 0 ∷ 2 ∷ []

first-inside : (j c : ℕ) → get_elem? first j ≡ some c → c < 3
first-inside zero c h = ground arith
first-inside (suc zero) c h = ground arith
first-inside (suc (suc zero)) c h = ground arith
first-inside (suc (suc (suc j))) c h = cc

first-all : (c : ℕ) → c < 3 → (j : ℕ) × (get_elem? first j ≡ some c)
first-all zero h = (0, refl)
first-all (suc zero) h = (1, refl)
first-all (suc (suc zero)) h = (2, refl)
first-all (suc (suc (suc c))) h = absurd (omega arith)

second-inside : (j c : ℕ) → get_elem? second j ≡ some c → c < 3
second-inside zero c h = ground arith
second-inside (suc zero) c h = ground arith
second-inside (suc (suc zero)) c h = ground arith
second-inside (suc (suc (suc j))) c h = cc

second-all : (c : ℕ) → c < 3 → (j : ℕ) × (get_elem? second j ≡ some c)
second-all zero h = (1, refl)
second-all (suc zero) h = (0, refl)
second-all (suc (suc zero)) h = (2, refl)
second-all (suc (suc (suc c))) h = absurd (omega arith)

rows_cover : (i : ℕ) (row : List ℕ) → get_elem? (first ∷ second ∷ []) i ≡ some row → Covers 3 row
rows_cover zero row h =
    let e : first ≡ row = cc in
    subst (Covers 3) e (record { inside = first-inside; all = first-all })
rows_cover (suc zero) row h =
    let e : second ≡ row = cc in
    subst (Covers 3) e (record { inside = second-inside; all = second-all })
rows_cover (suc (suc i)) row h = cc

lookup-generate_lut_example :
    (lut : List ℕ) × (generate_lut 4 (first ∷ second ∷ []) 3 ≡ returns lut)
    × ((hash : ℕ)
        → (b : ℕ) × (lookup (record { lut = lut; lut_size = 3 }) hash ≡ returns b)
          × (b < length (first ∷ second ∷ [])))
lookup-generate_lut_example =
    lookup-generate_lut (first ∷ second ∷ []) 3 rows_cover (omega arith) (omega arith) 4
      (omega arith) (omega arith)

-- The table: the first backend fills slots 0 and 2, the second slot 1.
small_table : generate_lut 4 (first ∷ second ∷ []) 3 ≡ returns (0 ∷ 1 ∷ 0 ∷ [])
unfolding generate_lut fill pass turn seek
small_table = refl
