-- ===== src/Functions/Lpm/Entering.antt =====
-- The bodies of the two loops of `construct_table` of test/lpm/src/nf.rs: an entry gives its gate to
-- the addresses of its prefix and to no others.
use native.Mathlib.Nat.{mul_assoc}
use native.Mathlib.Decide.{dec_lt}
use net_bricks.Prelude.{
  ℕ, ◌+◌, ◌-◌, ◌*◌, ◌/◌, ◌^◌, ◌<◌, ◌≤◌, ◌≡◌, refl, sym, ap, ◌∙◌, Bool, true, false, ◌&&◌, arith,
  get_or, ltb, leb, two-pow-add, if◌then◌else◌,
}
use net_bricks.Prelude.Run.{Run, returns}
use net_bricks.Functions.Lpm.{IpLookup, enter_short}
use net_bricks.Functions.Lpm.Cells.{store_all_lem, Stored}
use net_bricks.Functions.Lpm.Shown.{Entry, direct, block, Shown}

-- A prefix of `len` bits has the 2 ^ (32 - len) addresses from its key on.
unfoldable pub covers : ℕ → ℕ → ℕ → Bool
covers len k ip = leb k ip && ltb ip (k + 2 ^ (32 - len))

unfoldable pub enter : ℕ → ℕ × ℕ → (ℕ → ℕ) → ℕ → ℕ
enter len (k, v) gates ip = if covers len k ip then v else gates ip

-- The key has no bits behind the prefix, and the gate leaves the mark free.
pub record IsPrefix (len : ℕ) (k v : ℕ) : Type 0 where
  pub bits : ℕ
  pub aligned : k ≡ bits * 2 ^ (32 - len)
  pub within : k + 2 ^ (32 - len) ≤ 2 ^ 32
  pub gate : v < 2 ^ 15

module _ (len k v : ℕ) (gates : ℕ → ℕ) (ip : ℕ) where
  pub enter_inside : k ≤ ip → ip < k + 2 ^ (32 - len) → enter len (k, v) gates ip ≡ v
  unfolding enter covers
  enter_inside l u =
      let c : (leb k ip && ltb ip (k + 2 ^ (32 - len))) ≡ true = ground arith in rw (c) refl

  pub enter_before : ip < k → enter len (k, v) gates ip ≡ gates ip
  unfolding enter covers
  enter_before l =
      let c : (leb k ip && ltb ip (k + 2 ^ (32 - len))) ≡ false = ground arith in rw (c) refl

  pub enter_behind : k + 2 ^ (32 - len) ≤ ip → enter len (k, v) gates ip ≡ gates ip
  unfolding enter covers
  enter_behind u =
      let c : (leb k ip && ltb ip (k + 2 ^ (32 - len))) ≡ false = ground arith in rw (c) refl

-- What a run makes of the tables
pub record Entered (run : Run IpLookup) (t : IpLookup) (gates : ℕ → ℕ) (n : ℕ) : Type 0 where
  pub t' : IpLookup
  pub is : run ≡ returns t'
  pub raw : t'.raw_entries ≡ t.raw_entries
  pub shown : Shown t' gates n

-- An entry whose cells and gates stay
pub carry-Entry :
    (t t' : IpLookup) (gates gates' : ℕ → ℕ) (n n' a : ℕ)
    → n ≤ n'
    → get_or t'.tbl24 a 0 ≡ get_or t.tbl24 a 0
    → ((x : ℕ) → x < 256 → gates' (a * 256 + x) ≡ gates (a * 256 + x))
    → ((b x : ℕ)
        → b < n
        → get_or t.tbl24 a 0 ≡ b + 2 ^ 15
        → x < 256
        → get_or t'.tbl_long (b * 256 + x) 0 ≡ get_or t.tbl_long (b * 256 + x) 0)
    → Entry t gates n a
    → Entry t' gates' n' a
carry-Entry t t' gates gates' n n' a grows same keeps blocks (direct small shows) =
    direct (rw (same) small) (λ x l. keeps x l ∙ shows x l ∙ sym same)
carry-Entry t t' gates gates' n n' a grows same keeps blocks (block b few is shows) =
    block b (omega arith) (same ∙ is) (λ x l. keeps x l ∙ shows x l ∙ sym (blocks b x few is l))

unmarked_only :
    (t : IpLookup) (gates : ℕ → ℕ) (a : ℕ) → Entry t gates 0 a → 2 ^ 15 ≤ get_or t.tbl24 a 0 → ⊥
unmarked_only t gates a (direct small shows) big = absurd (omega arith)
unmarked_only t gates a (block b few is shows) big = absurd (omega arith)

module _ (t : IpLookup) (gates : ℕ → ℕ) (len k v : ℕ) (p : IsPrefix len k v) where
  short-Entry :
      (a : ℕ) (start : ℕ)
      → k ≡ start * 256
      → 2 ^ (32 - len) ≡ 2 ^ (24 - len) * 256
      → (s : Stored (λ pfx. v) (2 ^ (24 - len)) start t.tbl24) → Entry t gates 0 a
      → Entry (record t { tbl24 = s.cells' }) (enter len (k, v) gates) 0 a
  short-Entry a start key width s e = elim (dec_lt a start) [
    | yes l ↦
        carry-Entry t (record t { tbl24 = s.cells' }) gates (enter len (k, v) gates) 0 0 a
          (omega arith) (s.before a l)
          (λ x small. enter_before len k v gates (a * 256 + x) (omega arith))
          (λ b x few is small. refl) e
    | no g ↦ elim (dec_lt a (start + 2 ^ (24 - len))) [
      | yes u ↦
          let got = s.inside a (omega arith) u in
          direct (rw (got) p.gate) (λ x small.
            enter_inside len k v gates (a * 256 + x) (omega arith) (omega arith) ∙ sym got)
      | no u ↦
          carry-Entry t (record t { tbl24 = s.cells' }) gates (enter len (k, v) gates) 0 0 a
            (omega arith) (s.behind a (omega arith))
            (λ x small. enter_behind len k v gates (a * 256 + x) (omega arith))
            (λ b x few is small. refl) e
    ]
  ]

  pub enter_short_lem :
      len ≤ 24 → Shown t gates 0 → Entered (enter_short len (k, v) t) t (enter len (k, v) gates) 0
  unfolding enter_short
  enter_short_lem short s =
      let start : ℕ = p.bits * 2 ^ (24 - len) in
      let exponent : 32 - len ≡ 24 - len + 8 = omega arith in
      let width : 2 ^ (32 - len) ≡ 2 ^ (24 - len) * 256 =
        ap (λ (x : ℕ). 2 ^ x) exponent ∙ two-pow-add (24 - len) 8 in
      let key : k ≡ start * 256 =
        p.aligned ∙ ap (λ x. p.bits * x) width ∙ sym (mul_assoc p.bits (2 ^ (24 - len)) 256) in
      let from : k / 2 ^ 8 ≡ start = omega arith in
      let within = p.within in
      let stored =
        store_all_lem (λ pfx. v) (2 ^ (24 - len)) start t.tbl24 (omega (arith, s.size24)) in
      let t' : IpLookup = record t { tbl24 = stored.cells' } in
      let entry : (a : ℕ) → a < 2 ^ 24 → Entry t' (enter len (k, v) gates) 0 a =
        λ a l. short-Entry a start key width stored (s.entry a l) in
      record {
        t' = t';
        is = rw (from, stored.run) refl;
        raw = refl;
        shown = record {
          size24 = stored.count ∙ s.size24;
          size_long = s.size_long;
          current = s.current;
          few = s.few;
          entry = entry;
          own = λ a c l u big same.
              elim (unmarked_only t' (enter len (k, v) gates) a (entry a l) big) [ ];
        };
      }
