-- ===== src/Segments/Single.antt =====
-- Segment lists of framework/src/state/reordered_buffer/reordered_buffer.rs that hold one segment:
-- how the first is inserted, what an overlapping one makes of it, and how the list is cleared.
use net_bricks.Prelude.{
  ℕ, zero, suc, ◌%◌, ◌^◌, ◌≤◌, ◌<◌, ◌≡◌, ◌≢◌, refl, ap, ◌∙◌, List, [], ◌∷◌, Option, none, some,
  true, false, max, length, get_elem?, set, length-set, get_elem?-set_self, lt-length_of_get_elem?,
  add32, sub32, leb, ◌==◌, arith,
}
use net_bricks.Prelude.Run.{Run, returns, out_of_fuel, bind}
use net_bricks.Segments.{
  Segment, SegmentList, change, find_available_node, insert_before_node, insert_loop,
  insert_at_tail, merge_at_idx, merge_loop, insert_segment, clear_loop, clear, remove_node,
  one_segment, is_head, get_segment,
}

-- The list holds the node `i` alone, with the bytes from `seq` on.
pub record IsSingle (l : SegmentList) (i seq len : ℕ) : Type 0 where
  pub segment : Segment
  pub is_head : l.head ≡ some i
  pub stored : get_elem? l.storage i ≡ some segment
  pub starts : segment.seq ≡ seq
  pub spans : segment.len ≡ len
  pub last : segment.next ≡ none

change_lem :
    (l : SegmentList) (i : ℕ) (f : Segment → Segment) {s : Segment}
    → get_elem? l.storage i ≡ some s
    → change l i f ≡ returns (record l { storage = set l.storage i (f s) })
change_lem l i f e = rw e

get_or_elem :
    (xs : List Segment) (i : ℕ) → i < length xs → (s : Segment) × (get_elem? xs i ≡ some s)
get_or_elem [] i h = elim h [ ]
get_or_elem (x ∷ xs) zero h = (x, refl)
get_or_elem (x ∷ xs) (suc i) h = get_or_elem xs i (omega arith)

insert_segment_empty :
    (fuel : ℕ) (l : SegmentList) (seq len : ℕ)
    → l.head ≡ none
    → insert_segment fuel l seq len
      ≡ bind
          (insert_before_node l none seq len)
          (λ r. returns (record r.0 { head = some r.1; tail = some r.1 }, r.1))
unfolding insert_segment
insert_segment_empty fuel l seq len h = ground arith

-- `insert_segment` on an empty list with a free node `i` returns `i`, and the list then holds
-- that node alone, with the bytes of the segment.
pub insert_segment-IsSingle :
    (fuel : ℕ) (l : SegmentList) (i : ℕ) (rest : List ℕ) (seq len : ℕ)
    → l.head ≡ none
    → l.available ≡ i ∷ rest
    → i < length l.storage
    → (l' : SegmentList) × (insert_segment fuel l seq len ≡ returns (l', i)) × IsSingle l' i seq len
unfolding insert_before_node find_available_node
insert_segment-IsSingle fuel l i rest seq len empty free stored =
    let old = get_or_elem l.storage i stored in
    let s : Segment = old.0 in
    let fresh : Segment = record s { seq = seq; len = len; next = none } in
    let storage = set l.storage i fresh in
    let there = get_elem?-set_self l.storage i fresh stored in
    let unlinked : Segment = record fresh { prev = none } in
    let l' : SegmentList = record {
      storage = set storage i unlinked;
      available = rest;
      head = some i;
      tail = some i;
    } in
    (
      l',
      rw (insert_segment_empty fuel l seq len empty, free, old.1, there),
      record {
        segment = unlinked;
        is_head = refl;
        stored =
            get_elem?-set_self storage i unlinked (omega (arith, length-set l.storage i fresh));
        starts = refl;
        spans = refl;
        last = refl;
      },
    )

module _ {l : SegmentList} {i s n : ℕ} (single : IsSingle l i s n) where
  -- the list after an assignment to the node's length
  resized : ℕ → SegmentList
  resized m = record l { storage = set l.storage i (record single.segment { len = m }) }

  resized-IsSingle : (m : ℕ) → IsSingle (resized m) i s m
  unfolding resized
  resized-IsSingle m = record {
    segment = record single.segment { len = m };
    is_head = single.is_head;
    stored =
        get_elem?-set_self l.storage i (record single.segment { len = m })
          (lt-length_of_get_elem? l.storage i single.stored);
    starts = single.starts;
    spans = refl;
    last = single.last;
  }

  pub merge_at_idx_single : (fuel : ℕ) → merge_at_idx fuel l i ≡ returns l
  unfolding merge_at_idx merge_loop
  merge_at_idx_single fuel = rw (single.stored, single.last)

  pub one_segment_single : one_segment l ≡ returns true
  unfolding one_segment
  one_segment_single = ground (arith, single.is_head, single.stored, single.last)

  pub is_head_single : is_head l i ≡ true
  is_head_single = ground (arith, single.is_head)

  pub get_segment_single : get_segment l i ≡ returns single.segment
  get_segment_single = rw single.stored

  -- `clear` empties a list of one node in one round.
  pub clear_single :
      (fuel : ℕ) → (l' : SegmentList) × (clear (suc fuel) l ≡ returns l') × (l'.head ≡ none)
  unfolding clear clear_loop remove_node
  clear_single fuel =
      let emptied : SegmentList = record l {
        storage = set l.storage i (record single.segment { len = 0 });
        available = i ∷ l.available;
        head = none;
        tail = none;
      } in
      (
        emptied,
        ap
              (λ h.
                bind (clear_loop (suc fuel) l h)
                  (λ m. returns (record m { head = none; tail = none })))
              single.is_head
            ∙ rw single.stored (
                ap
                  (λ t.
                    bind
                      (clear_loop fuel
                        (record l {
                          storage = set l.storage i (record single.segment { len = 0 });
                          available = i ∷ l.available;
                        })
                        t)
                      (λ m. returns (record m { head = none; tail = none })))
                  single.last),
        refl,
      )

-- After the search, the node is merged with its successors.
after_loop : ℕ → ℕ → ℕ → SegmentList × Option ℕ → Run (SegmentList × ℕ)
after_loop fuel seq len r = elim r.1 [
  | none ↦ insert_at_tail r.0 seq len
  | some idx ↦ bind (merge_at_idx fuel r.0 idx) (λ l'. returns (l', idx))
]

insert_segment_search :
    (fuel : ℕ) (l : SegmentList) (i seq len : ℕ)
    → l.head ≡ some i
    → insert_segment fuel l seq len
      ≡ bind (insert_loop fuel l (some i) seq len) (after_loop fuel seq len)
unfolding insert_segment after_loop
insert_segment_search fuel l i seq len h =
    ap
      (λ t. elim t as (λ _. Run (SegmentList × ℕ)) [
        | none ↦
            bind (insert_before_node l none seq len)
              λ r. returns (record r.0 { head = some r.1; tail = some r.1 }, r.1)
        | some h ↦ bind (insert_loop fuel l (some h) seq len) (after_loop fuel seq len)
      ])
      h

insert_loop_overlap :
    (fuel : ℕ) (l : SegmentList) (i s n seq len : ℕ) (single : IsSingle l i s n)
    → s ≤ seq
    → s < add32 seq len
    → add32 s n ≢ seq
    → insert_loop (suc fuel) l (some i) seq len
      ≡ returns (resized single (sub32 (max (add32 s n) (add32 seq len)) s % 2 ^ 16), some i)
unfolding insert_loop resized
insert_loop_overlap fuel l i s n seq len single h k ne =
    let test1 : (add32 s n == seq) ≡ false = ground arith in
    let test2 : leb (add32 seq len) s ≡ false = ground arith in
    let test3 : leb s seq ≡ true = ground arith in
    rw (single.stored, single.starts, single.spans, test1, test2, test3)

-- On a list of one node, a segment that starts at or behind the node's start, ends behind it and
-- does not start right at its end, is taken for an overlapping one whether or not there is a gap:
-- with fuel for one round, the node then spans up to the later of the two ends, and is still the
-- only one.
pub insert_segment-IsSingle_overlap :
    (fuel : ℕ) (l : SegmentList) (i s n seq len : ℕ)
    → IsSingle l i s n
    → s ≤ seq
    → s < add32 seq len
    → add32 s n ≢ seq
    → (l' : SegmentList) × (insert_segment (suc fuel) l seq len ≡ returns (l', i))
      × IsSingle l' i s (sub32 (max (add32 s n) (add32 seq len)) s % 2 ^ 16)
unfolding after_loop resized
insert_segment-IsSingle_overlap fuel l i s n seq len single h k ne =
    let m : ℕ = sub32 (max (add32 s n) (add32 seq len)) s % 2 ^ 16 in
    (
      resized single m,
      insert_segment_search (suc fuel) l i seq len single.is_head
          ∙ rw (insert_loop_overlap fuel l i s n seq len single h k ne, after_loop)
              (rw (merge_at_idx_single (resized-IsSingle single m) (suc fuel))),
      resized-IsSingle single m,
    )

-- the loop of `merge_at_idx` at a successor that starts past the node's end
merge_loop_gap :
    (fuel : ℕ) (l : SegmentList) (idx next : ℕ) (s n : Segment)
    → get_elem? l.storage idx ≡ some s
    → get_elem? l.storage next ≡ some n
    → add32 s.seq s.len < n.seq
    → merge_loop fuel l idx (some next) ≡ out_of_fuel
unfolding merge_loop
merge_loop_gap zero l idx next s n es en gap = refl
merge_loop_gap (suc fuel) l idx next s n es en gap =
    let beyond : leb n.seq (add32 s.seq s.len) ≡ false = ground arith in
    rw (es, en, beyond) (merge_loop_gap fuel l idx next s n es en gap)

-- When the node after `idx` starts past the end of the node at `idx`, `merge_at_idx` runs out of
-- any fuel.
pub merge_at_idx_gap :
    (fuel : ℕ) (l : SegmentList) (idx next : ℕ) (s n : Segment)
    → get_elem? l.storage idx ≡ some s
    → get_elem? l.storage next ≡ some n
    → s.next ≡ some next
    → add32 s.seq s.len < n.seq
    → merge_at_idx fuel l idx ≡ out_of_fuel
unfolding merge_at_idx
merge_at_idx_gap fuel l idx next s n es en link gap =
    rw (es, link) (merge_loop_gap fuel l idx next s n es en gap)
