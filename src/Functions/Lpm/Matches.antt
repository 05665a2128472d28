-- ===== src/Functions/Lpm/Matches.antt =====
-- The longest prefix of an address, and that test/lpm/src/nf.rs finds it.
use native.Mathlib.Decide.{ℕ_discrete}
use net_bricks.Prelude.{
  ℕ, zero, suc, ◌+◌, ◌^◌, ◌<◌, ◌≤◌, ◌≡◌, refl, sym, ap, ◌∙◌, Bool, true, false, List, [], ◌∷◌,
  arith, length, length-replicate, get_or, replicate, if◌then◌else◌,
}
use net_bricks.Prelude.Run.{returns}
use net_bricks.Functions.Lpm.{
  IpLookup, raw_size, tbl24_size, blank, default, construct_table, lookup_entry,
}
use net_bricks.Functions.Lpm.Shown.{Shown, direct}
use net_bricks.Functions.Lpm.Entering.{covers, enter}
use net_bricks.Functions.Lpm.Longest.{
  ArePrefixes, gates_in, gates_to, count, lookup_entry-construct_table,
}

-- Every entry of a length that has the address has a gate with the property.
abbrev pub GatesIn : (ℕ → Type 0) → ℕ → ℕ → List (ℕ × ℕ) → Type 0
GatesIn P ip len [] = Unit {0}
GatesIn P ip len ((k, w) ∷ rest) = (covers len k ip ≡ true → P w) × GatesIn P ip len rest

-- The same for the `n` lengths from `len` on
unfoldable pub EachGate : (ℕ → Type 0) → ℕ → ℕ → ℕ → List (List (ℕ × ℕ)) → Type 0
EachGate P ip zero len raw = Unit {0}
EachGate P ip (suc n) len raw = GatesIn P ip len (get_or raw len []) × EachGate P ip n (suc len) raw

-- An entry of a list
pub data Has (k v : ℕ) : List (ℕ × ℕ) → Type 0 where
  here : {a w : ℕ} {rest : List (ℕ × ℕ)} → k ≡ a → v ≡ w → Has k v ((a, w) ∷ rest)
  there : {e : ℕ × ℕ} {rest : List (ℕ × ℕ)} → Has k v rest → Has k v (e ∷ rest)

-- The gate of an address: that of a prefix which has it, where all others as long or longer that
-- have it agree; or 0, if no prefix has it.
pub data Longest (raw : List (List (ℕ × ℕ))) (ip : ℕ) : ℕ → Type 0 where
  found :
      (len k r v : ℕ)
      → r + len ≡ 33
      → 0 < r
      → Has k v (get_or raw len [])
      → covers len k ip ≡ true
      → EachGate (λ w. w ≡ v) ip r len raw
      → Longest raw ip v
  missing : EachGate (λ w. w ≡ 0) ip 33 0 raw → Longest raw ip 0

-- The entries of the lengths from `len` on
abbrev pub AllPrefixes : ℕ → List (List (ℕ × ℕ)) → Type 0
AllPrefixes len [] = Unit {0}
AllPrefixes len (entries ∷ raw) = ArePrefixes len entries × AllPrefixes (suc len) raw

choose : (c : Bool) (w x v : ℕ) → (c ≡ true → w ≡ v) → x ≡ v → (if c then w else x) ≡ v
choose true w x v h e = h refl
choose false w x v h e = e

module _ (ip v : ℕ) where
  keep_in :
      (len : ℕ) (entries : List (ℕ × ℕ)) (gates : ℕ → ℕ)
      → GatesIn (λ w. w ≡ v) ip len entries
      → gates ip ≡ v
      → gates_in len entries gates ip ≡ v
  unfolding gates_in enter
  keep_in len [] gates a e = e
  keep_in len ((k, w) ∷ rest) gates (a, others) e =
      keep_in len rest (enter len (k, w) gates) others (choose (covers len k ip) w (gates ip) v a e)

  reach_in :
      (len k : ℕ) (entries : List (ℕ × ℕ)) (gates : ℕ → ℕ)
      → Has k v entries
      → covers len k ip ≡ true
      → GatesIn (λ w. w ≡ v) ip len entries
      → gates_in len entries gates ip ≡ v
  unfolding gates_in enter
  reach_in len k [] gates m c a = elim m [ ]
  reach_in len k ((k1, w) ∷ rest) gates (here r s) c (a, others) =
      let covered : covers len k1 ip ≡ true = ap (λ x. covers len x ip) (sym r) ∙ c in
      keep_in len rest (enter len (k1, w) gates) others
        (ap (λ (b : Bool). if b then w else gates ip) covered ∙ a covered)
  reach_in len k ((k1, w) ∷ rest) gates (there m) c (a, others) =
      reach_in len k rest (enter len (k1, w) gates) m c others

  module _ (raw : List (List (ℕ × ℕ))) where
    keep_to :
        (n len : ℕ) (gates : ℕ → ℕ)
        → EachGate (λ w. w ≡ v) ip n len raw
        → gates ip ≡ v
        → gates_to n len raw gates ip ≡ v
    unfolding gates_to EachGate
    keep_to zero len gates a e = e
    keep_to (suc n) len gates (a, others) e =
        keep_to n (suc len) (gates_in len (get_or raw len []) gates) others
          (keep_in len _ gates a e)

    reach_now :
        (len k n : ℕ) (gates : ℕ → ℕ)
        → 0 < n
        → Has k v (get_or raw len [])
        → covers len k ip ≡ true
        → EachGate (λ w. w ≡ v) ip n len raw
        → gates_to n len raw gates ip ≡ v
    unfolding gates_to EachGate
    reach_now len k zero gates some_left m c others = absurd (omega arith)
    reach_now len k (suc n) gates some_left m c (a, others) =
        keep_to n (suc len) (gates_in len (get_or raw len []) gates) others
          (reach_in len k _ gates m c a)

    reach_to :
        (n from len k r : ℕ) (gates : ℕ → ℕ)
        → r + len ≡ n + from
        → from ≤ len
        → 0 < r
        → Has k v (get_or raw len [])
        → covers len k ip ≡ true
        → EachGate (λ w. w ≡ v) ip r len raw
        → gates_to n from raw gates ip ≡ v
    unfolding gates_to
    reach_to zero from len k r gates h l pos m c others = absurd (omega arith)
    reach_to (suc n) from len k r gates h l pos m c others = elim (ℕ_discrete from len) [
      | yes e ↦
          let left : suc n ≡ r = omega arith in
          ap (λ (i : ℕ). gates_to i from raw gates ip) left
          ∙ ap (λ (i : ℕ). gates_to r i raw gates ip) e
          ∙ reach_now len k r gates pos m c others
      | no ne ↦
          reach_to n (suc from) len k r (gates_in from (get_or raw from []) gates) (omega arith)
            (omega arith) pos m c others
    ]

gates_to-Longest :
    (raw : List (List (ℕ × ℕ))) (ip v : ℕ) → Longest raw ip v → gates_to 33 0 raw (λ x. 0) ip ≡ v
gates_to-Longest raw ip _ (found len k r v h pos m c others) =
    reach_to ip v raw 33 0 len k r (λ x. 0) (omega arith) (omega arith) pos m c others
gates_to-Longest raw ip _ (missing others) = keep_to ip 0 raw 33 0 (λ x. 0) others refl

zero_cell : (size i : ℕ) → get_or {A = ℕ} (replicate size 0) i 0 ≡ 0
zero_cell zero i = refl
zero_cell (suc size) zero = refl
zero_cell (suc size) (suc i) = zero_cell size i

blank-Shown :
    (size : ℕ) (raw : List (List (ℕ × ℕ)))
    → size ≡ tbl24_size
    → Shown (record (blank size) { raw_entries = raw }) (λ ip. 0) 0
unfolding blank
blank-Shown size raw h = record {
  size24 = length-replicate size 0 ∙ h;
  size_long = length-replicate size 0 ∙ h;
  current = refl;
  few = omega arith;
  entry = λ a l. direct (omega (arith, zero_cell size a)) (λ x small. sym (zero_cell size a));
  own = λ a c la lc big same. absurd (omega (arith, zero_cell size a));
}

all_at :
    (raw : List (List (ℕ × ℕ))) (from i len : ℕ)
    → len ≡ i + from
    → AllPrefixes from raw
    → i < length raw
    → ArePrefixes len (get_or raw i [])
all_at [] from i len e p h = absurd (omega arith)
all_at (entries ∷ raw) from zero len e (p, ps) h =
    let same : len ≡ from = omega arith in rw (same) p
all_at (entries ∷ raw) from (suc i) len e (p, ps) h =
    all_at raw (suc from) i len (omega arith) ps (omega arith)

-- With the entries of an instance that `default` gives and `insert` has filled, when every entry is
-- a prefix of its length with a gate below 2 ^ 15 and at most 2 ^ 15 prefixes have more than 24
-- bits: `construct_table` returns, and then `lookup_entry` of an address returns the gate of the
-- longest prefix that has the address, or 0 if there is none. Where two entries of one length have
-- the address, they have the same gate.
pub lookup_entry-Longest :
    (raw : List (List (ℕ × ℕ))) (ip v : ℕ)
    → length raw ≡ raw_size
    → AllPrefixes 0 raw
    → count 8 25 raw ≤ 2 ^ 15
    → ip < 2 ^ 32
    → Longest raw ip v
    → (t' : IpLookup) × (construct_table (record default { raw_entries = raw }) ≡ returns t')
      × (lookup_entry t' ip ≡ returns v)
unfolding default
lookup_entry-Longest raw ip v size all few small longest =
    let prefixes : (len : ℕ) → len ≤ 32 → ArePrefixes len (get_or raw len []) =
      λ len h. all_at raw 0 len len (omega arith) all (omega (arith, size)) in
    let (t', run, shows) =
      lookup_entry-construct_table raw size prefixes
        (record (blank tbl24_size) { raw_entries = raw }) refl few
        (blank-Shown tbl24_size raw refl) in
    (t', run, shows ip small ∙ ap returns (gates_to-Longest raw ip v longest))
