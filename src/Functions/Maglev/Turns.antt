-- ===== src/Functions/Maglev/Turns.antt =====
-- The turn of a backend in `generate_lut` of test/maglev/src/nf.rs: it gets one more slot.
use native.Mathlib.Decide.{dec_lt, ℕ_discrete}
use net_bricks.Prelude.{
  ℕ, zero, suc, ◌+◌, ◌-◌, ◌<◌, ◌≤◌, ◌≡◌, ◌≢◌, refl, sym, ap, ◌∙◌, List, [], ◌∷◌, some, arith,
  length, length-set, get_elem?, get_elem?-eq-get_or, get_elem?-set_self, lt-length_of_get_elem?,
  get_or, set, drop,
}
use net_bricks.Prelude.Run.{returns}
use net_bricks.Functions.Maglev.{free, Filling, turn}
use net_bricks.Functions.Maglev.Slots.{
  filled, filled-set, exists_free, get_elem?-set_ne, get_elem?-drop, Found, seek_lem,
}

-- A row has all the slots of a table, and no others.
pub record Covers (size : ℕ) (row : List ℕ) : Type 0 where
  pub inside : (j c : ℕ) → get_elem? row j ≡ some c → c < size
  pub all : (c : ℕ) → c < size → (j : ℕ) × (get_elem? row j ≡ some c)

some_ne_free : (i : ℕ) → i < free → some i ≢ some free
some_ne_free i l e = ground arith

-- A slot that is filled stays so.
set_filled :
    (entry : List ℕ) (d i c : ℕ)
    → i < free
    → get_elem? entry c ≢ some free
    → get_elem? (set entry d i) c ≢ some free
set_filled [] d i c l h = h
set_filled (e ∷ entry) zero i zero l h = some_ne_free i l
set_filled (e ∷ entry) zero i (suc c) l h = h
set_filled (e ∷ entry) (suc d) i zero l h = h
set_filled (e ∷ entry) (suc d) i (suc c) l h = set_filled entry d i c l h

module _ (permutations : List (List ℕ)) (size : ℕ) where
  pub record IsFilling (s : Filling) : Type 0 where
    pub count : s.n ≡ filled s.entry
    pub slots : length s.entry ≡ size
    pub nexts : length s.next ≡ length permutations
    pub backends : (c b : ℕ) → get_elem? s.entry c ≡ some b → b ≢ free → b < length permutations
    pub passed :
        (i k j c : ℕ) (row : List ℕ)
        → get_elem? permutations i ≡ some row
        → get_elem? s.next i ≡ some k
        → j < k
        → get_elem? row j ≡ some c
        → get_elem? s.entry c ≢ some free

  module _ (covers : (i : ℕ) (row : List ℕ) → get_elem? permutations i ≡ some row → Covers size row)
      (few : length permutations ≤ free) where
    pub record Turned (i : ℕ) (s : Filling) : Type 0 where
      pub s' : Filling
      pub run : turn permutations i s ≡ returns s'
      pub filling : IsFilling s'
      pub more : s'.n ≡ s.n + 1

    -- The slots that are behind the next one of a row after its turn.
    passed_turn :
        (s : Filling) (i : ℕ) (row : List ℕ) (k : ℕ)
        → IsFilling s
        → i < length permutations
        → get_elem? permutations i ≡ some row
        → get_elem? s.next i ≡ some k
        → (f : Found (drop k row) s.entry k) (j c : ℕ) → j < k + f.skipped + 1
        → get_elem? row j ≡ some c
        → get_elem? (set s.entry f.slot i) c ≢ some free
    passed_turn s i row k ok l at_row at_next f j c behind at =
        let small : i < free = omega arith in
        elim (dec_lt j k) [
          | yes h ↦ set_filled s.entry f.slot i c small (ok.passed i k j c row at_row at_next h at)
          | no h ↦
              let there : get_elem? (drop k row) (j - k) ≡ some c =
                get_elem?-drop k row (j - k) ∙ ap (get_elem? row) (omega arith) ∙ at in
              elim (dec_lt (j - k) f.skipped) [
                | yes h' ↦ set_filled s.entry f.slot i c small (f.before (j - k) c h' there)
                | no h' ↦
                    let last : j - k ≡ f.skipped = omega arith in
                    let same : f.slot ≡ c =
                      cc (sym f.there ∙ ap (get_elem? (drop k row)) (sym last) ∙ there) in
                    let now : get_elem? (set s.entry f.slot i) c ≡ some i =
                      ap (get_elem? (set s.entry f.slot i)) (sym same)
                      ∙ get_elem?-set_self s.entry f.slot i
                          (lt-length_of_get_elem? s.entry f.slot f.is_free) in
                    λ e. some_ne_free i small (sym now ∙ e)
              ]
        ]

    pub turn_lem :
        (s : Filling) (i : ℕ) → IsFilling s → s.n < size → i < length permutations → Turned i s
    unfolding turn
    turn_lem s i ok left l =
        let row : List ℕ = get_or permutations i [] in
        let at_row : get_elem? permutations i ≡ some row =
          get_elem?-eq-get_or permutations i [] l in
        let k : ℕ = get_or s.next i 0 in
        let at_next : get_elem? s.next i ≡ some k =
          get_elem?-eq-get_or s.next i 0 (omega (arith, ok.nexts)) in
        let cover = covers i row at_row in
        let (c, is_free, lc) = exists_free s.entry (omega (arith, ok.count, ok.slots)) in
        let (j, at) = cover.all c (omega (arith, ok.slots)) in
        let ahead : k ≤ j = elim (dec_lt j k) [
          | yes h ↦ absurd (ok.passed i k j c row at_row at_next h at is_free)
          | no h ↦ omega arith
        ] in
        let there : get_elem? (drop k row) (j - k) ≡ some c =
          get_elem?-drop k row (j - k) ∙ ap (get_elem? row) (omega arith) ∙ at in
        let f =
          seek_lem (drop k row) s.entry k (j - k) c
            (λ a b h.
              omega (arith, cover.inside (k + a) b (sym (get_elem?-drop k row a) ∙ h), ok.slots))
            there is_free in
        let s' : Filling = record {
          next = set s.next i (k + f.skipped + 1);
          entry = set s.entry f.slot i;
          n = s.n + 1;
        } in
        let within : i < length s.next = omega (arith, ok.nexts) in
        record {
          s' = s';
          run = rw (at_row, at_next, f.run) refl;
          filling = record {
            count = omega (arith, ok.count, filled-set s.entry f.slot i f.is_free (omega arith));
            slots = length-set s.entry f.slot i ∙ ok.slots;
            nexts = length-set s.next i (k + f.skipped + 1) ∙ ok.nexts;
            backends = λ d b h ne. elim (ℕ_discrete f.slot d) [
              | yes e ↦
                  let now : get_elem? s'.entry f.slot ≡ some i =
                    get_elem?-set_self s.entry f.slot i
                      (lt-length_of_get_elem? s.entry f.slot f.is_free) in
                  let same : i ≡ b = cc (sym now ∙ ap (get_elem? s'.entry) e ∙ h) in
                  omega (arith, same)
              | no e ↦ ok.backends d b (sym (get_elem?-set_ne s.entry f.slot d i e) ∙ h) ne
            ];
            passed = λ i' k' j' c' row' at_row' at_next' behind at'. elim (ℕ_discrete i i') [
              | yes e ↦
                  let now : get_elem? s'.next i ≡ some (k + f.skipped + 1) =
                    get_elem?-set_self s.next i (k + f.skipped + 1) within in
                  let same : k + f.skipped + 1 ≡ k' =
                    cc (sym now ∙ ap (get_elem? s'.next) e ∙ at_next') in
                  let rows : row ≡ row' =
                    cc (sym at_row ∙ ap (get_elem? permutations) e ∙ at_row') in
                  passed_turn s i row k ok l at_row at_next f j' c' (omega (arith, same))
                    (ap (λ r. get_elem? r j') rows ∙ at')
              | no e ↦ set_filled s.entry f.slot i c' (omega arith) (
                  ok.passed i' k' j' c' row' at_row'
                    (sym (get_elem?-set_ne s.next i i' (k + f.skipped + 1) e) ∙ at_next') behind
                    at')
            ];
          };
          more = refl;
        }
