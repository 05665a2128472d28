-- ===== src/Functions/Lpm/Blocks.antt =====
-- The second loop of `construct_table` of test/lpm/src/nf.rs: an entry of a long prefix goes into the
-- block of its 256 addresses, which it makes when there is none.
use native.Mathlib.Nat.{one-le-pow}
use native.Mathlib.Decide.{ℕ_discrete, dec_lt}
use net_bricks.Prelude.{
  ℕ, suc, ◌+◌, ◌-◌, ◌*◌, ◌/◌, ◌%◌, ◌^◌, ◌<◌, ◌≤◌, ◌≡◌, ◌≢◌, refl, sym, ap, ◌∙◌, ◌⊎◌, inl, inr, true,
  false, ◌||◌, arith, length, length-set, get_or, get_or-set_self, get_or-set_ne, get_elem?,
  get_elem?-eq-get_or, set, ltb, leb, bit_or, if◌then◌else◌, List, some,
}
use net_bricks.Functions.Lpm.{IpLookup, enter_long, enter_in_block}
use net_bricks.Functions.Lpm.Cells.{
  store_all_lem, unmarked, marked, block_of, low_byte, mark, aligned_fits,
}
use net_bricks.Functions.Lpm.Shown.{Entry, direct, block, Shown}
use net_bricks.Functions.Lpm.Entering.{
  enter, IsPrefix, Entered, enter_inside, enter_before, enter_behind, carry-Entry,
}

-- A mark with the number of a block that is not made yet stands nowhere.
no_further_mark :
    (t : IpLookup) (gates : ℕ → ℕ) (n a : ℕ) → Entry t gates n a → get_or t.tbl24 a 0 < n + 2 ^ 15
no_further_mark t gates n a (direct small shows) = omega arith
no_further_mark t gates n a (block b few is shows) = omega arith

-- A cell of a new block: the new gate within the prefix, and what the entry was elsewhere
module _ (start end e v j : ℕ) where
  cell_inside : start ≤ j → j < end → (if ltb j start || leb end j then e else v) ≡ v
  cell_inside l u = let c : (ltb j start || leb end j) ≡ false = ground arith in rw (c) refl

  cell_outside : (j < start) ⊎ (end ≤ j) → (if ltb j start || leb end j then e else v) ≡ e
  cell_outside h = let c : (ltb j start || leb end j) ≡ true = ground arith in rw (c) refl

module _ (t : IpLookup) (gates : ℕ → ℕ) (len k v : ℕ) where
  -- Entries of other addresses than the prefix's
  long-Entry_other :
      (t' : IpLookup) (n n' a : ℕ)
      → n ≤ n'
      → k % 256 + 2 ^ (32 - len) ≤ 256
      → a ≢ k / 256
      → get_or t'.tbl24 a 0 ≡ get_or t.tbl24 a 0
      → ((b x : ℕ)
          → b < n
          → get_or t.tbl24 a 0 ≡ b + 2 ^ 15
          → x < 256
          → get_or t'.tbl_long (b * 256 + x) 0 ≡ get_or t.tbl_long (b * 256 + x) 0)
      → Entry t gates n a
      → Entry t' (enter len (k, v) gates) n' a
  long-Entry_other t' n n' a grows fits ne same blocks e =
      carry-Entry t t' gates (enter len (k, v) gates) n n' a grows same
        (λ x small. elim (dec_lt a (k / 256)) [
          | yes l ↦ enter_before len k v gates (a * 256 + x) (omega arith)
          | no g ↦ enter_behind len k v gates (a * 256 + x) (omega arith)
        ])
        blocks e

  -- The block of the prefix: the cells from `start` on that are the prefix's, and the others
  module _ (cells : List ℕ) (b : ℕ) (fits : k % 256 + 2 ^ (32 - len) ≤ 256)
      (inside : (x : ℕ)
        → k % 256 ≤ x
        → x < k % 256 + 2 ^ (32 - len)
        → get_or cells (b * 256 + x) 0 ≡ v)
      (outside : (x : ℕ)
        → x < 256
        → (x < k % 256) ⊎ (k % 256 + 2 ^ (32 - len) ≤ x)
        → get_or cells (b * 256 + x) 0 ≡ gates (k / 256 * 256 + x)) where
    block_shows :
        (x : ℕ)
        → x < 256
        → enter len (k, v) gates (k / 256 * 256 + x) ≡ get_or cells (b * 256 + x) 0
    block_shows x small = elim (dec_lt x (k % 256)) [
      | yes l ↦
          enter_before len k v gates (k / 256 * 256 + x) (omega arith)
          ∙ sym (outside x small (inl l))
      | no g ↦ elim (dec_lt x (k % 256 + 2 ^ (32 - len))) [
        | yes u ↦
            enter_inside len k v gates (k / 256 * 256 + x) (omega arith) (omega arith)
            ∙ sym (inside x (omega arith) u)
        | no u ↦
            enter_behind len k v gates (k / 256 * 256 + x) (omega arith)
            ∙ sym (outside x small (inr (omega arith)))
      ]
    ]

  module _ (n : ℕ) (s : Shown t gates n) (fits : k % 256 + 2 ^ (32 - len) ≤ 256)
      (within : k < 2 ^ 32) (gate : v < 2 ^ 15) where
    got24 : get_elem? t.tbl24 (k / 2 ^ 8) ≡ some (get_or t.tbl24 (k / 256) 0)
    got24 = get_elem?-eq-get_or t.tbl24 (k / 256) 0 (omega (arith, s.size24))

    shifted :
        (b x : ℕ)
        → (x < k % 256) ⊎ (k % 256 + 2 ^ (32 - len) ≤ x)
        → (b * 256 + x < b * 256 + k % 256) ⊎ (b * 256 + k % 256 + 2 ^ (32 - len) ≤ b * 256 + x)
    shifted b x (inl l) = inl (omega arith)
    shifted b x (inr u) = inr (omega arith)

    no_shared :
        (t' : IpLookup)
        → get_or t'.tbl24 (k / 256) 0 ≡ n + 2 ^ 15
        → ((a : ℕ) → a ≢ k / 256 → get_or t'.tbl24 a 0 ≡ get_or t.tbl24 a 0)
        → (a c : ℕ) → a < 2 ^ 24
        → c < 2 ^ 24
        → 2 ^ 15 ≤ get_or t'.tbl24 a 0
        → get_or t'.tbl24 a 0 ≡ get_or t'.tbl24 c 0
        → a ≡ c
    no_shared t' at off a c la lc big same = elim (ℕ_discrete a (k / 256)) [
      | yes q ↦ elim (ℕ_discrete c (k / 256)) [
        | yes r ↦ q ∙ sym r
        | no nr ↦
            let bound = no_further_mark t gates n c (s.entry c lc) in
            let here = ap (λ i. get_or t'.tbl24 i 0) q ∙ at in
            let there = off c nr in absurd (omega (arith, bound, here, there, same))
      ]
      | no nq ↦ elim (ℕ_discrete c (k / 256)) [
        | yes r ↦
            let bound = no_further_mark t gates n a (s.entry a la) in
            let here = ap (λ i. get_or t'.tbl24 i 0) r ∙ at in
            let there = off a nq in absurd (omega (arith, bound, here, there, same))
        | no nr ↦
            let here = off a nq in
            let there = off c nr in
            s.own a c la lc (omega (arith, big, here)) (sym here ∙ same ∙ there)
      ]
    ]

    new_block :
        n < 2 ^ 15
        → get_or t.tbl24 (k / 256) 0 < 2 ^ 15
        → ((x : ℕ) → x < 256 → gates (k / 256 * 256 + x) ≡ get_or t.tbl24 (k / 256) 0)
        → Entered (enter_long len (k, v) t) t (enter len (k, v) gates) (suc n)
    unfolding enter_long enter_in_block
    new_block few small shows =
        let a0 : ℕ = k / 256 in
        let e : ℕ = get_or t.tbl24 a0 0 in
        let start : ℕ = n * 256 + k % 256 in
        let end : ℕ = start + 2 ^ (32 - len) in
        let stored =
          store_all_lem (λ j. if ltb j start || leb end j then e else v) 256 (n * 256) t.tbl_long
            (omega (arith, s.size_long)) in
        let m : ℕ = bit_or (n * 256 / 2 ^ 8 % 2 ^ 16) 0x8000 in
        let in_range : a0 < length t.tbl24 = omega (arith, s.size24) in
        let t' : IpLookup = record t {
          tbl24 = set t.tbl24 a0 m;
          tbl_long = stored.cells';
          current_tbl_long = n * 256 + 256;
        } in
        let at : get_or t'.tbl24 a0 0 ≡ n + 2 ^ 15 =
          get_or-set_self t.tbl24 a0 m 0 in_range ∙ mark n few in
        let off : (a : ℕ) → a ≢ a0 → get_or t'.tbl24 a 0 ≡ get_or t.tbl24 a 0 =
          λ a ne. get_or-set_ne t.tbl24 a0 a m 0 (λ q. ne (sym q)) in
        record {
          t' = t';
          is = rw (got24) (
              rw (enter_in_block, unmarked e small)
                (rw (s.current, low_byte k) (rw (stored.run) refl)));
          raw = refl;
          shown = record {
            size24 = length-set t.tbl24 a0 m ∙ s.size24;
            size_long = stored.count ∙ s.size_long;
            current = omega arith;
            few = omega arith;
            entry = λ a l. elim (ℕ_discrete a a0) [
              | yes q ↦ rw (q) (
                  block n (omega arith) at (
                    block_shows stored.cells' n fits
                      (λ x low u.
                        stored.inside (n * 256 + x) (omega arith) (omega arith)
                        ∙ cell_inside start end e v (n * 256 + x) (omega arith) (omega arith))
                      (λ x small_x side.
                        stored.inside (n * 256 + x) (omega arith) (omega arith)
                        ∙ cell_outside start end e v (n * 256 + x) (shifted n x side)
                        ∙ sym (shows x small_x))))
              | no ne ↦
                  long-Entry_other t' n (suc n) a (omega arith) fits ne (off a ne)
                    (λ b x few_b is small_x. stored.before (b * 256 + x) (omega arith))
                    (s.entry a l)
            ];
            own = λ a c la lc big same. no_shared t' at off a c la lc big same;
          };
        }

    old_block :
        (b : ℕ)
        → b < n
        → get_or t.tbl24 (k / 256) 0 ≡ b + 2 ^ 15
        → ((x : ℕ) → x < 256 → gates (k / 256 * 256 + x) ≡ get_or t.tbl_long (b * 256 + x) 0)
        → Entered (enter_long len (k, v) t) t (enter len (k, v) gates) n
    unfolding enter_long enter_in_block
    old_block b few is shows =
        let b15 : b < 2 ^ 15 = omega (arith, s.few) in
        let start : ℕ = b * 256 + k % 256 in
        let stored =
          store_all_lem (λ j. v) (2 ^ (32 - len)) start t.tbl_long
            (omega (arith, s.size_long, s.few)) in
        let t' : IpLookup = record t { tbl_long = stored.cells' } in
        record {
          t' = t';
          is = rw (got24 ∙ ap some is) (
              rw (enter_in_block, marked b b15)
                (rw (block_of b b15, low_byte k) (rw (stored.run) refl)));
          raw = refl;
          shown = record {
            size24 = s.size24;
            size_long = stored.count ∙ s.size_long;
            current = s.current;
            few = s.few;
            entry = λ a l. elim (ℕ_discrete a (k / 256)) [
              | yes q ↦ rw (q) (
                  block b few is (
                    block_shows stored.cells' b fits
                      (λ x low u. stored.inside (b * 256 + x) (omega arith) (omega arith))
                      (λ x small_x side. elim side [
                        | inl h ↦ stored.before (b * 256 + x) (omega arith) ∙ sym (shows x small_x)
                        | inr h ↦ stored.behind (b * 256 + x) (omega arith) ∙ sym (shows x small_x)
                      ])))
              | no ne ↦
                  long-Entry_other t' n n a (omega arith) fits ne refl
                    (λ c x few_c is_c small_x.
                      let other : c ≢ b = λ r. ne (
                        s.own a (k / 256) l (omega arith) (omega arith)
                          (is_c ∙ ap (λ (i : ℕ). i + 2 ^ 15) r ∙ sym is)) in
                      elim (dec_lt c b) [
                        | yes h ↦ stored.before (c * 256 + x) (omega arith)
                        | no h ↦ stored.behind (c * 256 + x) (omega arith)
                      ])
                    (s.entry a l)
            ];
            own = s.own;
          };
        }

-- Whether there is a block or not, and so at most one block is made
pub record LongEntered (t : IpLookup) (gates : ℕ → ℕ) (len k v n : ℕ) : Type 0 where
  pub blocks : ℕ
  pub at_most : blocks ≤ suc n
  pub entered : Entered (enter_long len (k, v) t) t (enter len (k, v) gates) blocks

pub enter_long_lem :
    (t : IpLookup) (gates : ℕ → ℕ) (len k v n : ℕ)
    → IsPrefix len k v
    → 24 < len
    → len ≤ 32
    → n < 2 ^ 15
    → Shown t gates n
    → LongEntered t gates len k v n
enter_long_lem t gates len k v n p long top few s =
    let fits : k % 256 + 2 ^ (32 - len) ≤ 256 =
      rw (p.aligned) (aligned_fits (32 - len) p.bits (omega arith)) in
    let below : k < 2 ^ 32 = omega (arith, p.within, one-le-pow (32 - len) 2 (omega arith)) in
    elim (s.entry (k / 256) (omega arith)) [
      | direct small shows ↦ record {
        blocks = suc n;
        at_most = omega arith;
        entered = new_block t gates len k v n s fits below p.gate few small shows;
      }
      | block b made is shows ↦ record {
        blocks = n;
        at_most = omega arith;
        entered = old_block t gates len k v n s fits below p.gate b made is shows;
      }
    ]
