-- ===== src/Functions/Lpm.antt =====
-- The lookup table of test/lpm/src/nf.rs, of which test/lpm-embedded/src/nf.rs has a copy. The hash
-- maps are lists of their entries. The sums of indices do not wrap: an address is below 2 ^ 32 and
-- the tables have far fewer than 2 ^ 64 entries.
mod Tests
pub mod Cells
pub mod Shown
pub mod Entering
pub mod Blocks
pub mod Longest
pub mod Matches
use native.Mathlib.Decide.{ℕ_discrete}
use net_bricks.Prelude.{
  ℕ, zero, suc, ◌+◌, ◌-◌, ◌*◌, ◌/◌, ◌%◌, ◌^◌, bit_and, bit_or, List, [], ◌∷◌, ◌||◌, true, false,
  length, get_elem?, set, replicate, ltb, leb, ◌==◌, if◌then◌else◌,
}
use net_bricks.Prelude.Run.{Run, returns, bind, or_panic, check}
use net_bricks.Stores.Maps.{put}

pub record IpLookup : Type 0 where
  pub tbl24 : List ℕ
  pub tbl_long : List ℕ
  pub current_tbl_long : ℕ
  pub raw_entries : List (List (ℕ × ℕ))

abbrev pub tbl24_size : ℕ
tbl24_size = 2 ^ 24 + 1

abbrev pub raw_size : ℕ
raw_size = 33

abbrev pub overflow_mask : ℕ
overflow_mask = 0x8000

-- Empty tables of a size
unfoldable pub blank : ℕ → IpLookup
blank size = record {
  tbl24 = replicate size 0;
  tbl_long = replicate size 0;
  current_tbl_long = 0;
  raw_entries = replicate raw_size [];
}

unfoldable pub default : IpLookup
default = blank tbl24_size

unfoldable pub insert : ℕ → ℕ → ℕ → IpLookup → Run IpLookup
insert ip len gate t = bind (or_panic (get_elem? t.raw_entries len)) λ entries.
    returns (record t { raw_entries = set t.raw_entries len (put ℕ_discrete ip gate entries) })

-- `for j in j..j + n`: the cell at j gets `f j`.
unfoldable pub store_all : (ℕ → ℕ) → ℕ → ℕ → List ℕ → Run (List ℕ)
store_all f zero j cells = returns cells
store_all f (suc n) j cells =
    bind (check (ltb j (length cells))) λ in_range. store_all f n (suc j) (set cells j (f j))

-- The body of the first loop over entries, for the prefix length `i`
unfoldable pub enter_short : ℕ → ℕ × ℕ → IpLookup → Run IpLookup
enter_short i (k, v) t =
    bind (store_all (λ pfx. v) (2 ^ (24 - i)) (k / 2 ^ 8) t.tbl24)
      λ tbl24. returns (record t { tbl24 = tbl24 })

-- The body of the second, once it has the entry of the first table
unfoldable pub enter_in_block : ℕ → ℕ → ℕ → IpLookup → ℕ → Run IpLookup
enter_in_block i k v t t24entry = elim (bit_and t24entry overflow_mask == 0) [
  | true ↦
      let ctlb = t.current_tbl_long in
      let start = ctlb + bit_and k 0xff in
      let end = start + 2 ^ (32 - i) in
      bind (store_all (λ j. if ltb j start || leb end j then t24entry else v) 256 ctlb t.tbl_long)
        λ tbl_long. returns (record t {
          tbl24 = set t.tbl24 (k / 2 ^ 8) (bit_or (ctlb / 2 ^ 8 % 2 ^ 16) overflow_mask);
          tbl_long = tbl_long;
          current_tbl_long = ctlb + 256;
        })
  | false ↦
      let start = bit_and t24entry (2 ^ 16 - 1 - overflow_mask) * 2 ^ 8 + bit_and k 0xff in
      bind (store_all (λ j. v) (2 ^ (32 - i)) start t.tbl_long)
        λ tbl_long. returns (record t { tbl_long = tbl_long })
]

unfoldable pub enter_long : ℕ → ℕ × ℕ → IpLookup → Run IpLookup
enter_long i (k, v) t =
    bind (or_panic (get_elem? t.tbl24 (k / 2 ^ 8))) λ t24entry. enter_in_block i k v t t24entry

-- `for (k, v) in entries`
unfoldable pub enter_all :
    (ℕ × ℕ → IpLookup → Run IpLookup) → List (ℕ × ℕ) → IpLookup → Run IpLookup
enter_all enter [] t = returns t
enter_all enter (entry ∷ rest) t = bind (enter entry t) λ t. enter_all enter rest t

-- `for i in i..i + n`, over the entries of each length
unfoldable pub each_length : (ℕ → ℕ × ℕ → IpLookup → Run IpLookup) → ℕ → ℕ → IpLookup → Run IpLookup
each_length enter zero i t = returns t
each_length enter (suc n) i t =
    bind (or_panic (get_elem? t.raw_entries i))
      λ entries. bind (enter_all (enter i) entries t) λ t. each_length enter n (suc i) t

unfoldable pub construct_table : IpLookup → Run IpLookup
construct_table t =
    bind (each_length enter_short 25 0 t) λ t. each_length enter_long (raw_size - 25) 25 t

unfoldable pub lookup_entry : IpLookup → ℕ → Run ℕ
lookup_entry t ip = bind (or_panic (get_elem? t.tbl24 (ip / 2 ^ 8))) λ t24entry.
    if ltb 0 (bit_and t24entry overflow_mask)
    then or_panic (
        get_elem? t.tbl_long
          (bit_and t24entry (2 ^ 16 - 1 - overflow_mask) * 2 ^ 8 + bit_and ip 0xff))
    else returns t24entry
