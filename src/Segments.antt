-- ===== src/Segments.antt =====
-- `SegmentList` of framework/src/state/reordered_buffer/reordered_buffer.rs: the received segments
-- as a doubly linked list in a vector, with a stack of free nodes. A link is an `isize` that is a
-- node's index or -1; the model's `none` is the -1, and an index by it panics. A method returns the
-- new list beside its result. Plain `-` and `+` wrap, as in the release profile of Cargo.toml.
mod Tests
pub mod Single
use net_bricks.Prelude.{
  ℕ, zero, suc, ◌+◌, ◌-◌, ◌%◌, ◌^◌, ◌≡◌, List, [], ◌∷◌, ◌++◌, Option, none, some, Bool, true, false,
  min, max, length, get_elem?, set, add32, sub32, add64, sub64, leb, ltb, ◌==◌, if◌then◌else◌,
}
use net_bricks.Prelude.Run.{Run, returns, panics, out_of_fuel, bind, or_panic}

-- `u16::MAX`
abbrev pub u16_max : ℕ
u16_max = 65535

pub record Segment : Type 0 where
  pub prev : Option ℕ
  pub seq : ℕ
  pub len : ℕ
  pub next : Option ℕ
  pub idx : ℕ

abbrev pub segment_new : ℕ → ℕ → ℕ → Segment
segment_new idx seq len = record { prev = none; seq = seq; len = len; next = none; idx = idx }

-- The first of `available` is the end of the vector, where it is pushed and popped.
pub record SegmentList : Type 0 where
  pub storage : List Segment
  pub available : List ℕ
  pub head : Option ℕ
  pub tail : Option ℕ

-- the nodes `i`, `i + 1`, … of a new list, and their indices, last first
abbrev pub new_storage : ℕ → ℕ → List Segment
new_storage i zero = []
new_storage i (suc n) = segment_new i 0 0 ∷ new_storage (suc i) n

abbrev pub countdown : ℕ → List ℕ
countdown zero = []
countdown (suc n) = n ∷ countdown n

unfoldable pub new : ℕ → SegmentList
new len = record {
  storage = new_storage 0 len;
  available = countdown len;
  head = none;
  tail = none;
}

infixl 5 ◌>>=◌
abbrev ◌>>=◌ {ℓ κ} : {A : Type ℓ} {B : Type κ} → Run A → (A → Run B) → Run B
m >>= f = bind m f

-- `storage[i]`, and an assignment to fields of it
abbrev pub node : SegmentList → ℕ → Run Segment
node l i = or_panic (get_elem? l.storage i)

abbrev pub node_at : SegmentList → Option ℕ → Run Segment
node_at l i = bind (or_panic i) (node l)

abbrev pub change : SegmentList → ℕ → (Segment → Segment) → Run SegmentList
change l i f = bind (node l i) λ s. returns (record l { storage = set l.storage i (f s) })

pub remove_node : SegmentList → ℕ → Run SegmentList
remove_node l i = do
  l ← change l i (λ s. record s { len = 0 })
  returns (record l { available = i ∷ l.available })

pub find_available_node : SegmentList → SegmentList × ℕ
find_available_node l = elim l.available [
  | nidx ∷ rest ↦ (record l { available = rest }, nidx)
  | [] ↦
      let idx = length l.storage in
      (record l { storage = l.storage ++ segment_new idx 0 0 ∷ [] }, idx)
]

-- The node before `next`, if there is one, or else the head, is linked to the new node.
link_before : SegmentList → ℕ → ℕ → Run SegmentList
link_before l next idx = do
  s ← node l next
  l ← change l idx (λ n. record n { prev = s.prev })
  l ← change l next (λ n. record n { prev = some idx })
  elim s.prev [
    | some prev ↦ change l prev (λ n. record n { next = some idx })
    | none ↦ returns (record l { head = some idx })
  ]

pub insert_before_node : SegmentList → Option ℕ → ℕ → ℕ → Run (SegmentList × ℕ)
unfolding find_available_node link_before
insert_before_node l next seq len = do
  let found = find_available_node l
  let idx = found.1
  l ← change found.0 idx (λ n. record n { seq = seq; len = len; next = next })
  l ← elim next [
    | some i ↦ link_before l i idx
    | none ↦ change l idx (λ n. record n { prev = none })
  ]
  returns (l, idx)

pub insert_after_node : SegmentList → ℕ → ℕ → ℕ → Run (SegmentList × ℕ)
unfolding find_available_node
insert_after_node l prev seq len = do
  let found = find_available_node l
  let idx = found.1
  l ← change found.0 idx (λ n. record n { seq = seq; len = len; prev = some prev })
  p ← node l prev
  l ← change l idx (λ n. record n { next = p.next })
  l ← change l prev (λ n. record n { next = some idx })
  s ← node l idx
  returns (elim s.next [ none ↦ record l { tail = some idx } | some _ ↦ l ], idx)

pub insert_at_tail : SegmentList → ℕ → ℕ → Run (SegmentList × ℕ)
unfolding find_available_node
insert_at_tail l seq len = do
  let found = find_available_node l
  let idx = found.1
  l ← change found.0 idx (λ n. record n { seq = seq; len = len; next = none; prev = found.0.tail })
  t ← or_panic l.tail
  l ← change l t (λ n. record n { next = some idx })
  returns (record l { tail = some idx }, idx)

-- What a round of the loop in `merge_at_idx` makes of the node's successor: nothing if the two
-- leave a gap, one node if the length allows, and else bytes moved up to the maximum.
data Merged : Type 0 where
  again : SegmentList → Option ℕ → Merged
  stop : SegmentList → Merged

merge_round : SegmentList → ℕ → ℕ → Run Merged
unfolding remove_node
merge_round l idx next = do
  s ← node l idx
  n ← node l next
  let end = add32 s.seq s.len
  let merge_len = sub64 n.len (end - n.seq)
  let new_len = add64 merge_len s.len
  let max_len = u16_max - s.len
  let join = do
    l ← change l idx (λ t. record t { len = new_len })
    f ← node l next
    l ← change l idx (λ t. record t { next = f.next })
    l ← elim f.next [
      | some after ↦ change l after (λ t. record t { prev = some idx })
      | none ↦ returns l
    ]
    l ← remove_node l next
    returns (again l f.next)
  let fill = do
    l ← change l idx (λ t. record t { len = t.len + max_len })
    l ←
        change l next
          (λ t. record t { len = (t.len + 2 ^ 16 - max_len) % 2 ^ 16; seq = add32 t.seq max_len })
    returns (stop l)
  if leb n.seq end
      then (if leb new_len u16_max then join else fill)
      else returns (again l (some next))

-- `while next != -1`
merge_loop : ℕ → SegmentList → ℕ → Option ℕ → Run SegmentList
unfolding merge_round
merge_loop fuel l idx none = returns l
merge_loop zero l idx (some next) = out_of_fuel
merge_loop (suc fuel) l idx (some next) =
    bind (merge_round l idx next)
      λ m. elim m [ again l' next' ↦ merge_loop fuel l' idx next' | stop l' ↦ returns l' ]

pub merge_at_idx : ℕ → SegmentList → ℕ → Run SegmentList
unfolding merge_loop
merge_at_idx fuel l idx = do s ← node l idx; merge_loop fuel l idx s.next

-- The search of `insert_segment` from the node `idx` on: the first of three branches that applies
-- breaks the loop. The index that is returned is `none` if nothing matched.
insert_loop : ℕ → SegmentList → Option ℕ → ℕ → ℕ → Run (SegmentList × Option ℕ)
unfolding insert_after_node insert_before_node
insert_loop fuel l none seq len = returns (l, none)
insert_loop zero l (some idx) seq len = out_of_fuel
insert_loop (suc fuel) l (some idx) seq len = bind (node l idx) λ s.
    let end = add32 seq len in
    let seg_end = add32 s.seq s.len in
    let new_len = s.len + len in
    let max_len = u16_max - s.len in
    let grow = bind (change l idx (λ t. record t { len = new_len })) λ l'. returns (l', some idx) in
    let split = bind (change l idx (λ t. record t { len = t.len + max_len })) λ l'.
      bind (insert_after_node l' idx (add32 seq max_len) (len - max_len))
        λ r. returns (r.0, some idx) in
    let before = bind (insert_before_node l (some idx) seq len) λ r. returns (r.0, some r.1) in
    let overlap =
      bind (change l idx (λ t. record t { len = sub32 (max seg_end end) t.seq % 2 ^ 16 }))
        λ l'. returns (l', some idx) in
    let rest = insert_loop fuel l s.next seq len in
    if seg_end == seq
    then (if leb new_len u16_max then grow else split)
    else (if leb end s.seq then before else (if leb s.seq seq then overlap else rest))

-- The source returns `Some` on every path.
pub insert_segment : ℕ → SegmentList → ℕ → ℕ → Run (SegmentList × ℕ)
unfolding insert_loop insert_before_node insert_at_tail merge_at_idx
insert_segment fuel l seq len = elim l.head [
  | none ↦
      bind (insert_before_node l none seq len)
        λ r. returns (record r.0 { head = some r.1; tail = some r.1 }, r.1)
  | some h ↦ bind (insert_loop fuel l (some h) seq len) λ r. elim r.1 [
    | none ↦ insert_at_tail r.0 seq len
    | some idx ↦ bind (merge_at_idx fuel r.0 idx) λ l'. returns (l', idx)
  ]
]

abbrev pub is_head : SegmentList → ℕ → Bool
is_head l seg = elim l.head [ some h ↦ h == seg | none ↦ false ]

pub remove_head : SegmentList → Run SegmentList
unfolding remove_node
remove_head l = do
  head ← or_panic l.head
  s ← node l head
  remove_node (record l { head = s.next }) head

pub consume_head_data : ℕ → SegmentList → ℕ → ℕ → Run (SegmentList × Bool)
unfolding remove_head merge_at_idx
consume_head_data fuel l seq consumed = do
  idx ← or_panic l.head
  s ← node l idx
  let consume = min consumed s.len
  let rest = do
    l ← change l idx (λ t. record t { seq = add32 t.seq consume; len = t.len - consume })
    l ← if s.len - consume == 0 then remove_head l else merge_at_idx fuel l idx
    returns (l, consume == consumed)
  if s.seq == seq then rest else returns (l, false)

-- `while idx != -1`
clear_loop : ℕ → SegmentList → Option ℕ → Run SegmentList
unfolding remove_node
clear_loop fuel l none = returns l
clear_loop zero l (some idx) = out_of_fuel
clear_loop (suc fuel) l (some idx) =
    bind (node l idx) λ s. bind (remove_node l idx) λ l'. clear_loop fuel l' s.next

pub clear : ℕ → SegmentList → Run SegmentList
unfolding clear_loop
clear fuel l = do l ← clear_loop fuel l l.head; returns (record l { head = none; tail = none })

abbrev pub get_segment : SegmentList → ℕ → Run Segment
get_segment l idx = node l idx

pub one_segment : SegmentList → Run Bool
one_segment l = elim l.head [
  | none ↦ returns true
  | some h ↦ bind (node l h) λ s. returns (elim s.next [ none ↦ true | some _ ↦ false ])
]
