-- ===== src/Functions/Maglev/Filled.antt =====
-- The table that `generate_lut` of test/maglev/src/nf.rs returns.
use native.Mathlib.Decide.{dec_lt}
use net_bricks.Prelude.{
  ℕ, zero, suc, ◌+◌, ◌%◌, ◌==◌, ◌<◌, ◌≤◌, ◌≡◌, ◌≢◌, refl, sym, ap, ◌∙◌, List, [], ◌∷◌, some, true,
  false, arith, length, length-map, length-replicate, get_elem?, get_elem?-eq-get_or, get_or, map,
  replicate, leb, ltb,
}
use net_bricks.Prelude.Run.{returns, bind}
use net_bricks.Functions.Maglev.{free, Filling, pass, fill, start, generate_lut, lookup}
use net_bricks.Functions.Maglev.Turns.{Covers, IsFilling, turn_lem}
use net_bricks.Functions.Maglev.Slots.{filled, filled-le, filled-replicate}

all_filled : (entry : List ℕ) (c : ℕ) → filled entry ≡ length entry → get_elem? entry c ≢ some free
unfolding filled
all_filled [] c h = λ e. cc e
all_filled (x ∷ entry) zero h = λ e. absurd (ground (arith, filled-le entry, e))
all_filled (x ∷ entry) (suc c) h = all_filled entry c (ground (arith, filled-le entry))

free_of_replicate : (n c b : ℕ) → get_elem? (replicate n free) c ≡ some b → b ≡ free
free_of_replicate zero c b h = cc
free_of_replicate (suc n) zero b h = cc
free_of_replicate (suc n) (suc c) b h = free_of_replicate n c b h

zero_of_map : (rows : List (List ℕ)) (i k : ℕ) → get_elem? (map (λ _. 0) rows) i ≡ some k → k ≡ 0
zero_of_map [] i k h = cc
zero_of_map (row ∷ rows) zero k h = ground arith
zero_of_map (row ∷ rows) (suc i) k h = zero_of_map rows i k h

module _ (permutations : List (List ℕ)) (size : ℕ)
    (covers : (i : ℕ) (row : List ℕ) → get_elem? permutations i ≡ some row → Covers size row)
    (few : length permutations ≤ free) where
  n-le : (s : Filling) → IsFilling permutations size s → s.n ≤ size
  n-le s ok = omega (arith, ok.count, ok.slots, filled-le s.entry)

  record Passed (left i : ℕ) (s : Filling) : Type 0 where
    s' : Filling
    run : pass permutations size left i s ≡ returns s'
    filling : IsFilling permutations size s'
    more : s.n ≤ s'.n
    grows : 0 < left → s.n < s'.n

  pass_lem :
      (left i : ℕ) (s : Filling)
      → IsFilling permutations size s
      → s.n < size
      → i + left ≡ length permutations
      → Passed left i s
  unfolding pass
  pass_lem zero i s ok open_slots e = record {
    s' = s;
    run = refl;
    filling = ok;
    more = omega arith;
    grows = λ h. absurd (omega arith);
  }
  pass_lem (suc left) i s ok open_slots e =
      let t = turn_lem permutations size covers few s i ok open_slots (omega arith) in
      elim (dec_lt t.s'.n size) [
        | yes h ↦
            let test : leb size t.s'.n ≡ false = ground arith in
            let p = pass_lem left (suc i) t.s' t.filling h (omega arith) in
            record {
              s' = p.s';
              run = rw t.run (
                  ap
                    (λ x. elim x [
                      | true ↦ returns t.s'
                      | false ↦ pass permutations size left (suc i) t.s'
                    ])
                    test
                  ∙ p.run);
              filling = p.filling;
              more = omega (arith, p.more, t.more);
              grows = λ g. omega (arith, p.more, t.more);
            }
        | no h ↦
            let test : leb size t.s'.n ≡ true = ground arith in
            record {
              s' = t.s';
              run = rw t.run (
                  ap
                    (λ x. elim x [
                      | true ↦ returns t.s'
                      | false ↦ pass permutations size left (suc i) t.s'
                    ])
                    test);
              filling = t.filling;
              more = omega (arith, t.more);
              grows = λ g. omega (arith, t.more);
            }
      ]

  module _ (some_backend : 0 < length permutations) where
    record Full (fuel : ℕ) (s : Filling) : Type 0 where
      s' : Filling
      run : fill fuel permutations size s ≡ returns s'
      filling : IsFilling permutations size s'
      full : size ≤ s'.n

    fill_lem :
        (fuel : ℕ) (s : Filling) → IsFilling permutations size s → size < s.n + fuel → Full fuel s
    unfolding fill
    fill_lem zero s ok enough = absurd (omega (arith, n-le s ok))
    fill_lem (suc fuel) s ok enough = elim (dec_lt s.n size) [
      | yes h ↦
          let test : ltb s.n size ≡ true = ground arith in
          let p = pass_lem (length s.next) 0 s ok h (omega (arith, ok.nexts)) in
          let more = p.grows (omega (arith, ok.nexts)) in
          let f = fill_lem fuel p.s' p.filling (omega (arith, more)) in
          record {
            s' = f.s';
            run =
                ap
                  (λ x. elim x [
                    | true ↦
                        bind (pass permutations size (length s.next) 0 s)
                          (fill fuel permutations size)
                    | false ↦ returns s
                  ])
                  test
                ∙ ap (λ r. bind r (fill fuel permutations size)) p.run
                ∙ f.run;
            filling = f.filling;
            full = f.full;
          }
      | no h ↦
          let test : ltb s.n size ≡ false = ground arith in
          record {
            s' = s;
            run =
                ap
                  (λ x. elim x [
                    | true ↦
                        bind (pass permutations size (length s.next) 0 s)
                          (fill fuel permutations size)
                    | false ↦ returns s
                  ])
                  test;
            filling = ok;
            full = omega arith;
          }
    ]

    start-IsFilling : IsFilling permutations size (start permutations size)
    start-IsFilling = record {
      count = sym (filled-replicate size);
      slots = length-replicate size free;
      nexts = length-map (λ _. 0) permutations;
      backends = λ c b h ne. absurd (ne (free_of_replicate size c b h));
      passed = λ i k j c row at_row at_next behind at.
          absurd (omega (arith, zero_of_map permutations i k at_next));
    }

    -- For at least one backend and at most as many as the mark of a free slot allows, each with a row
    -- that has all the slots of the table and no others: with more fuel than the table has slots,
    -- `generate_lut` returns, its table is of that size, and every slot has a backend.
    pub generate_lut_lem :
        (fuel : ℕ)
        → size < fuel
        → (lut : List ℕ) × (generate_lut fuel permutations size ≡ returns lut)
          × (length lut ≡ size)
          × ((c : ℕ) → c < size → (b : ℕ) × (get_elem? lut c ≡ some b) × (b < length permutations))
    unfolding generate_lut
    generate_lut_lem fuel enough =
        let f = fill_lem fuel (start permutations size) start-IsFilling (omega arith) in
        let lut : List ℕ = f.s'.entry in
        (
          lut,
          rw f.run refl,
          f.filling.slots,
          λ c l.
              let b : ℕ = get_or lut c 0 in
              let at : get_elem? lut c ≡ some b =
                get_elem?-eq-get_or lut c 0 (omega (arith, f.filling.slots)) in
              let whole : filled lut ≡ length lut =
                omega (arith, f.full, f.filling.count, f.filling.slots, filled-le lut) in
              (b, at, f.filling.backends c b at (λ e. all_filled lut c whole (at ∙ ap some e))),
        )

    -- For at least one backend and at most as many as the mark of a free slot, 0x8000, each with a
    -- row that has all the slots of the table and no others, and for a table of at least one slot:
    -- with more fuel than the table has slots, `generate_lut` returns, and `lookup` in the table
    -- that it returns gives one of these backends for every hash.
    pub lookup-generate_lut :
        (fuel : ℕ)
        → size < fuel
        → 0 < size
        → (lut : List ℕ) × (generate_lut fuel permutations size ≡ returns lut)
          × ((hash : ℕ)
              → (b : ℕ) × (lookup (record { lut = lut; lut_size = size }) hash ≡ returns b)
                × (b < length permutations))
    unfolding lookup
    lookup-generate_lut fuel enough some_slot =
        let (lut, run, slots, backends) = generate_lut_lem fuel enough in
        (
          lut,
          run,
          λ hash.
              let within : hash % size < size = grind arith in
              let (b, at, l) = backends (hash % size) within in
              let t : (size == 0) ≡ false = ground arith in (b, rw (t, at) refl, l),
        )
