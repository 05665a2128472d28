-- ===== src/Functions/Maglev/Slots.antt =====
-- The slots of the table of test/maglev/src/nf.rs: how many are filled, and the search for a free one.
use native.Mathlib.Decide.{ℕ_discrete}
use net_bricks.Prelude.{
  ℕ, zero, suc, ◌+◌, ◌<◌, ◌≤◌, ◌≡◌, ◌≢◌, refl, sym, ap, ◌∙◌, List, [], ◌∷◌, some, true, false,
  arith, length, get_elem?, set, drop, replicate, if◌then◌else◌, ◌==◌, get_or, get_elem?-eq-get_or,
}
use net_bricks.Prelude.Run.{returns}
use net_bricks.Functions.Maglev.{free, seek}

-- The number of slots that are filled.
unfoldable pub filled : List ℕ → ℕ
filled [] = 0
filled (e ∷ entry) = if e == free then filled entry else suc (filled entry)

pub filled-replicate : (n : ℕ) → filled (replicate n free) ≡ 0
unfolding filled
filled-replicate zero = refl
filled-replicate (suc n) = filled-replicate n

pub filled-le : (entry : List ℕ) → filled entry ≤ length entry
unfolding filled
filled-le [] = omega arith
filled-le (e ∷ entry) = ground (arith, filled-le entry)

pub filled-set :
    (entry : List ℕ) (c i : ℕ)
    → get_elem? entry c ≡ some free
    → i < free
    → filled (set entry c i) ≡ filled entry + 1
unfolding filled
filled-set [] c i h l = cc
filled-set (e ∷ entry) zero i h l = ground arith
filled-set (e ∷ entry) (suc c) i h l = ground (arith, filled-set entry c i h l)

-- While not all slots are filled, one is free.
pub exists_free :
    (entry : List ℕ)
    → filled entry < length entry
    → (c : ℕ) × (get_elem? entry c ≡ some free) × (c < length entry)
unfolding filled
exists_free [] h = absurd (omega arith)
exists_free (e ∷ entry) h = elim (ℕ_discrete e free) [
  | yes same ↦ (0, ap some same, omega arith)
  | no other ↦ let (c, at, l) = exists_free entry (ground arith) in (suc c, at, omega arith)
]

pub get_elem?-set_ne : (xs : List ℕ) (i j v : ℕ) → i ≢ j → get_elem? (set xs i v) j ≡ get_elem? xs j
get_elem?-set_ne [] i j v h = refl
get_elem?-set_ne (x ∷ xs) zero zero v h = absurd (h refl)
get_elem?-set_ne (x ∷ xs) zero (suc j) v h = refl
get_elem?-set_ne (x ∷ xs) (suc i) zero v h = refl
get_elem?-set_ne (x ∷ xs) (suc i) (suc j) v h = get_elem?-set_ne xs i j v (λ e. h (ap suc e))

pub get_elem?-drop : (k : ℕ) (xs : List ℕ) (j : ℕ) → get_elem? (drop k xs) j ≡ get_elem? xs (k + j)
get_elem?-drop zero xs j = ap (get_elem? xs) (omega arith)
get_elem?-drop (suc k) [] j = refl
get_elem?-drop (suc k) (x ∷ xs) j =
    let e : suc k + j ≡ suc (k + j) = omega arith in
    get_elem?-drop k xs j ∙ ap (get_elem? (x ∷ xs)) (sym e)

-- What `seek` finds: the first slot of the list that is free.
pub record Found (rest entry : List ℕ) (k : ℕ) : Type 0 where
  pub skipped : ℕ
  pub slot : ℕ
  pub run : seek rest entry k ≡ returns (k + skipped, slot)
  pub there : get_elem? rest skipped ≡ some slot
  pub is_free : get_elem? entry slot ≡ some free
  pub before : (j c : ℕ) → j < skipped → get_elem? rest j ≡ some c → get_elem? entry c ≢ some free

module _ (b : ℕ) (rest entry : List ℕ) (k : ℕ) where
  cons-Found_now : get_elem? entry b ≡ some free → Found (b ∷ rest) entry k
  unfolding seek
  cons-Found_now at = record {
    skipped = 0;
    slot = b;
    run = rw at (ap (λ x. returns (x, b)) (omega arith));
    there = refl;
    is_free = at;
    before = λ j c l h. absurd (omega arith);
  }

  before-cons :
      (skipped : ℕ)
      → get_elem? entry b ≢ some free
      → ((j c : ℕ) → j < skipped → get_elem? rest j ≡ some c → get_elem? entry c ≢ some free)
      → (j c : ℕ) → j < suc skipped
      → get_elem? (b ∷ rest) j ≡ some c
      → get_elem? entry c ≢ some free
  before-cons skipped first later zero c l h =
      let e : b ≡ c = cc in λ q. first (ap (get_elem? entry) e ∙ q)
  before-cons skipped first later (suc j) c l h = later j c (omega arith) h

  cons-Found_later :
      (e : ℕ)
      → get_elem? entry b ≡ some e
      → e ≢ free
      → Found rest entry (suc k)
      → Found (b ∷ rest) entry k
  unfolding seek
  cons-Found_later e at other f =
      let t : (e == free) ≡ false = ground arith in
      let next : suc k + f.skipped ≡ k + suc f.skipped = omega arith in
      record {
        skipped = suc f.skipped;
        slot = f.slot;
        run = rw at (
            ap (λ x. elim x [ true ↦ returns (k, b) | false ↦ seek rest entry (suc k) ]) t
            ∙ f.run
            ∙ ap (λ x. returns (x, f.slot)) next);
        there = f.there;
        is_free = f.is_free;
        before = before-cons f.skipped (λ q. other (cc (sym at ∙ q))) f.before;
      }

-- If a slot of the list is free, and all its slots are in the table, `seek` finds the first one.
pub seek_lem :
    (rest entry : List ℕ) (k j c : ℕ)
    → ((i b : ℕ) → get_elem? rest i ≡ some b → b < length entry)
    → get_elem? rest j ≡ some c
    → get_elem? entry c ≡ some free
    → Found rest entry k
seek_lem [] entry k j c inside there is_free = cc
seek_lem (b ∷ rest) entry k zero c inside there is_free =
    let e : b ≡ c = cc in cons-Found_now b rest entry k (ap (get_elem? entry) e ∙ is_free)
seek_lem (b ∷ rest) entry k (suc j) c inside there is_free =
    let e : ℕ = get_or entry b 0 in
    let at : get_elem? entry b ≡ some e = get_elem?-eq-get_or entry b 0 (inside 0 b refl) in
    elim (ℕ_discrete e free) [
      | yes same ↦ cons-Found_now b rest entry k (at ∙ ap some same)
      | no other ↦
          cons-Found_later b rest entry k e at other
            (seek_lem rest entry (suc k) j c (λ i d h. inside (suc i) d h) there is_free)
    ]
