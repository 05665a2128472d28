-- ===== src/Functions/Lpm/Longest.antt =====
-- The tables that `construct_table` of test/lpm/src/nf.rs makes, and what `lookup_entry` finds in them.
use net_bricks.Prelude.{
  ℕ, zero, suc, ◌+◌, ◌^◌, ◌<◌, ◌≤◌, ◌≡◌, refl, ap, ◌∙◌, List, [], ◌∷◌, arith, length, get_or,
  get_elem?, get_elem?-eq-get_or,
}
use net_bricks.Prelude.Run.{Run, returns}
use net_bricks.Functions.Lpm.{
  IpLookup, raw_size, enter_short, enter_long, enter_all, each_length, construct_table,
  lookup_entry,
}
use net_bricks.Functions.Lpm.Shown.{Shown, lookup_entry-Shown}
use net_bricks.Functions.Lpm.Entering.{enter, IsPrefix, Entered, enter_short_lem}
use net_bricks.Functions.Lpm.Blocks.{enter_long_lem}

abbrev pub ArePrefixes : ℕ → List (ℕ × ℕ) → Type 0
ArePrefixes len [] = Unit {0}
ArePrefixes len ((k, v) ∷ rest) = IsPrefix len k v × ArePrefixes len rest

-- The gates with those of the prefixes of a length put over them
unfoldable pub gates_in : ℕ → List (ℕ × ℕ) → (ℕ → ℕ) → ℕ → ℕ
gates_in len [] gates = gates
gates_in len (entry ∷ rest) gates = gates_in len rest (enter len entry gates)

-- The same for the `n` lengths from `len` on, the longer over the shorter
unfoldable pub gates_to : ℕ → ℕ → List (List (ℕ × ℕ)) → (ℕ → ℕ) → ℕ → ℕ
gates_to zero len raw gates = gates
gates_to (suc n) len raw gates = gates_to n (suc len) raw (gates_in len (get_or raw len []) gates)

-- How many prefixes there are of the `n` lengths from `len` on
unfoldable pub count : ℕ → ℕ → List (List (ℕ × ℕ)) → ℕ
count zero len raw = 0
count (suc n) len raw = length (get_or raw len []) + count n (suc len) raw

shorts_lem :
    (t : IpLookup) (gates : ℕ → ℕ) (len : ℕ) (entries : List (ℕ × ℕ))
    → ArePrefixes len entries
    → len ≤ 24
    → Shown t gates 0
    → Entered (enter_all (enter_short len) entries t) t (gates_in len entries gates) 0
unfolding enter_all gates_in
shorts_lem t gates len [] p short s = record { t' = t; is = refl; raw = refl; shown = s }
shorts_lem t gates len ((k, v) ∷ rest) (p, ps) short s =
    let one = enter_short_lem t gates len k v p short s in
    let later = shorts_lem one.t' (enter len (k, v) gates) len rest ps short one.shown in
    record {
      t' = later.t';
      is = rw (one.is) later.is;
      raw = later.raw ∙ one.raw;
      shown = later.shown;
    }

record LongsEntered (run : Run IpLookup) (t : IpLookup) (gates : ℕ → ℕ) (most : ℕ) : Type 0 where
  blocks : ℕ
  at_most : blocks ≤ most
  entered : Entered run t gates blocks

longs_lem :
    (t : IpLookup) (gates : ℕ → ℕ) (len n : ℕ) (entries : List (ℕ × ℕ))
    → ArePrefixes len entries
    → 24 < len
    → len ≤ 32
    → n + length entries ≤ 2 ^ 15
    → Shown t gates n
    → LongsEntered
        (enter_all (enter_long len) entries t)
        t
        (gates_in len entries gates)
        (n + length entries)
unfolding enter_all gates_in
longs_lem t gates len n [] p long top few s = record {
  blocks = n;
  at_most = omega arith;
  entered = record { t' = t; is = refl; raw = refl; shown = s };
}
longs_lem t gates len n ((k, v) ∷ rest) (p, ps) long top few s =
    let one = enter_long_lem t gates len k v n p long top (omega arith) s in
    let bound = one.at_most in
    let e = one.entered in
    let later =
      longs_lem e.t' (enter len (k, v) gates) len one.blocks rest ps long top (omega arith)
        e.shown in
    let last = later.at_most in
    record {
      blocks = later.blocks;
      at_most = omega arith;
      entered = record {
        t' = later.entered.t';
        is = rw (e.is) later.entered.is;
        raw = later.entered.raw ∙ e.raw;
        shown = later.entered.shown;
      };
    }

module _ (raw : List (List (ℕ × ℕ))) (size : length raw ≡ raw_size)
    (prefixes : (len : ℕ) → len ≤ 32 → ArePrefixes len (get_or raw len [])) where
  each_short_lem :
      (t : IpLookup) (gates : ℕ → ℕ) (n len : ℕ)
      → len + n ≤ 25
      → t.raw_entries ≡ raw
      → Shown t gates 0
      → Entered (each_length enter_short n len t) t (gates_to n len raw gates) 0
  unfolding each_length gates_to
  each_short_lem t gates zero len h same s = record { t' = t; is = refl; raw = refl; shown = s }
  each_short_lem t gates (suc n) len h same s =
      let got =
        ap (λ r. get_elem? r len) same ∙ get_elem?-eq-get_or raw len [] (omega (arith, size)) in
      let these =
        shorts_lem t gates len (get_or raw len []) (prefixes len (omega arith)) (omega arith) s in
      let later =
        each_short_lem these.t' (gates_in len (get_or raw len []) gates) n (suc len) (omega arith)
          (these.raw ∙ same) these.shown in
      record {
        t' = later.t';
        is = rw (got) (rw (these.is) later.is);
        raw = later.raw ∙ these.raw;
        shown = later.shown;
      }

  each_long_lem :
      (t : IpLookup) (gates : ℕ → ℕ) (n len blocks : ℕ)
      → 24 < len
      → len + n ≤ 33
      → blocks + count n len raw ≤ 2 ^ 15
      → t.raw_entries ≡ raw
      → Shown t gates blocks
      → LongsEntered
          (each_length enter_long n len t)
          t
          (gates_to n len raw gates)
          (blocks + count n len raw)
  unfolding each_length gates_to count
  each_long_lem t gates zero len blocks long h few same s = record {
    blocks = blocks;
    at_most = omega arith;
    entered = record { t' = t; is = refl; raw = refl; shown = s };
  }
  each_long_lem t gates (suc n) len blocks long h few same s =
      let got =
        ap (λ r. get_elem? r len) same ∙ get_elem?-eq-get_or raw len [] (omega (arith, size)) in
      let these =
        longs_lem t gates len blocks (get_or raw len []) (prefixes len (omega arith)) long
          (omega arith) (omega arith) s in
      let bound = these.at_most in
      let e = these.entered in
      let later =
        each_long_lem e.t' (gates_in len (get_or raw len []) gates) n (suc len) these.blocks
          (omega arith) (omega arith) (omega arith) (e.raw ∙ same) e.shown in
      let last = later.at_most in
      record {
        blocks = later.blocks;
        at_most = omega arith;
        entered = record {
          t' = later.entered.t';
          is = rw (got) (rw (e.is) later.entered.is);
          raw = later.entered.raw ∙ e.raw;
          shown = later.entered.shown;
        };
      }

  -- For tables in which every address has the gate 0, when every entry is a prefix of its length
  -- with a gate below 2 ^ 15 and at most 2 ^ 15 are longer than 24 bits: `construct_table` returns,
  -- and then `lookup_entry` of an address returns the gate of the longest prefix that has the
  -- address, the later entry's if an entry of the same length has it too, or 0 without one.
  pub lookup_entry-construct_table :
      (t : IpLookup)
      → t.raw_entries ≡ raw
      → count 8 25 raw ≤ 2 ^ 15
      → Shown t (λ ip. 0) 0
      → (t' : IpLookup) × (construct_table t ≡ returns t')
        × ((ip : ℕ) → ip < 2 ^ 32 → lookup_entry t' ip ≡ returns (gates_to 33 0 raw (λ x. 0) ip))
  unfolding construct_table gates_to
  lookup_entry-construct_table t same few s =
      let short = each_short_lem t (λ ip. 0) 25 0 (omega arith) same s in
      let long =
        each_long_lem short.t' (gates_to 25 0 raw (λ ip. 0)) 8 25 0 (omega arith) (omega arith)
          (omega arith) (short.raw ∙ same) short.shown in
      (
        long.entered.t',
        rw (short.is) long.entered.is,
        λ ip h. lookup_entry-Shown long.entered.t' _ long.blocks ip long.entered.shown h,
      )
