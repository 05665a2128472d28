-- ===== src/PacketBatch.antt =====
-- `PacketBatch` of framework/src/operators/packet_batch.rs. The vector of mbuf pointers is the
-- memory of its capacity, `slots`, and its length, which `set_len` changes without a check; so is
-- a pointer a number. The bulk allocation and deallocation of DPDK are parameters: the first gives
-- the pointers that it writes, or none if it fails, the second the code that it returns. Neither
-- tells the batch anything else. The sender of `send_q` is one too: it takes the slice and returns
-- how many packets of it were sent.
mod Tests
pub mod Drop
pub mod Send
use net_bricks.Prelude.{
  ℕ, zero, suc, ◌+◌, ◌-◌, ◌≡◌, List, [], ◌∷◌, ◌++◌, Option, none, some, Bool, true, false, length,
  get_elem?, set, take, drop, replicate, leb, ltb, sub64, write_slice, ◌==◌, if◌then◌else◌,
}
use net_bricks.Prelude.Run.{Run, returns, panics, bind, or_panic, check}
use net_bricks.Errors.{ErrorKind, Result, ok, err}

pub record PacketBatch : Type 0 where
  pub slots : List ℕ
  pub len : ℕ
  pub scratch : List ℕ
  pub parent_tasks : List ℕ

-- The pointers of the batch.
abbrev pub array : PacketBatch → List ℕ
array b = take b.len b.slots

pub new : ℕ → PacketBatch
new cnt = record { slots = replicate cnt 0; len = 0; scratch = []; parent_tasks = [] }

abbrev pub add_parent_task : PacketBatch → ℕ → PacketBatch
add_parent_task b task = record b { parent_tasks = b.parent_tasks ++ task ∷ [] }

abbrev pub get_parent_task : PacketBatch → List ℕ
get_parent_task b = b.parent_tasks

abbrev pub available : PacketBatch → ℕ
available b = b.len

abbrev pub capacity : PacketBatch → ℕ
capacity b = length b.slots

abbrev pub add_to_batch : PacketBatch → ℕ → PacketBatch
add_to_batch b added = record b { len = added }

abbrev pub consume_batch : PacketBatch → PacketBatch
consume_batch b = record b { len = 0 }

-- `while idx_orig < end`: `n` pointers from `idx_orig` on are moved down to `idx_new`.
unfoldable pub move_down : ℕ → ℕ → ℕ → List ℕ → Run (List ℕ)
move_down zero idx_orig idx_new slots = returns slots
move_down (suc n) idx_orig idx_new slots =
    bind (or_panic (get_elem? slots idx_orig))
      λ m. move_down n (suc idx_orig) (suc idx_new) (set slots idx_new m)

-- `consumed` is at most the length, or else `set_len` gets a length that wraps.
unfoldable pub consume_batch_partial : PacketBatch → ℕ → Run PacketBatch
unfolding move_down
consume_batch_partial b consumed =
    bind (move_down (b.len - consumed) consumed 0 b.slots)
      λ slots. returns (record b { slots = slots; len = sub64 b.len consumed })

-- The first loop of `drop_packets_stable`, with `n` packets to go, and then the second. It gives
-- the slots, the new length, the dropped packets and the indices that were not met.
unfoldable pub drop_loop : ℕ → ℕ → ℕ → List ℕ → List ℕ → List ℕ → Run (List ℕ × ℕ × List ℕ × List ℕ)
unfolding move_down
drop_loop zero idx_orig idx_new idxes slots scratch = returns (slots, idx_new, scratch, idxes)
drop_loop (suc n) idx_orig idx_new [] slots scratch =
    bind (move_down (suc n) idx_orig idx_new slots) λ s. returns (s, idx_new + suc n, scratch, [])
drop_loop (suc n) idx_orig idx_new (test_idx ∷ idxes) slots scratch =
    bind (check (leb idx_orig test_idx)) λ _. bind (or_panic (get_elem? slots idx_orig)) λ m.
      elim (idx_orig == test_idx) [
        | true ↦ drop_loop n (suc idx_orig) idx_new idxes slots (scratch ++ m ∷ [])
        | false ↦
            drop_loop n (suc idx_orig) (suc idx_new) (test_idx ∷ idxes) (set slots idx_new m)
              scratch
      ]

-- What follows the loops: the dropped packets are freed.
unfoldable pub free_dropped : (List ℕ → ℕ) → PacketBatch → List ℕ → PacketBatch × Option ℕ
free_dropped mbuf_free_bulk b [] = (record b { scratch = [] }, some 0)
free_dropped mbuf_free_bulk b (m ∷ scratch) = (
  record b { scratch = [] },
  if mbuf_free_bulk (m ∷ scratch) == 0 then some (length (m ∷ scratch)) else none,
)

unfoldable pub drop_packets_stable :
    (List ℕ → ℕ) → PacketBatch → List ℕ → Run (PacketBatch × Option ℕ)
unfolding drop_loop free_dropped
drop_packets_stable mbuf_free_bulk b [] = returns (b, some 0)
drop_packets_stable mbuf_free_bulk b (i ∷ idxes) =
    bind (drop_loop b.len 0 0 (i ∷ idxes) b.slots b.scratch) λ r. elim r.3 [
      | [] ↦ returns (free_dropped mbuf_free_bulk (record b { slots = r.0; len = r.1 }) r.2)
      | _ ∷ _ ↦ returns (record b { slots = r.0; scratch = r.2 }, none)
    ]

unfoldable pub alloc_packet_batch :
    (ℕ → ℕ → Option (List ℕ)) → PacketBatch → ℕ → ℕ → PacketBatch × Result (Unit {0})
alloc_packet_batch mbuf_alloc_bulk b len cnt =
    if ltb (capacity b) cnt
    then (b, err ErrorKind.failed_allocation)
    else elim (mbuf_alloc_bulk len cnt) [
      | some ptrs ↦ (record b { slots = write_slice 0 b.slots ptrs; len = cnt }, ok tt)
      | none ↦ (b, err ErrorKind.failed_allocation)
    ]

-- The second component is whether the packets were freed.
unfoldable pub free_packet_batch : (List ℕ → ℕ) → PacketBatch → PacketBatch × Bool
free_packet_batch mbuf_free_bulk b =
    if b.len == 0 then (b, true) else (record b { len = 0 }, mbuf_free_bulk (array b) == 0)

unfoldable pub allocate_batch_with_size :
    (ℕ → ℕ → Option (List ℕ)) → PacketBatch → ℕ → PacketBatch × Result (Unit {0})
unfolding alloc_packet_batch
allocate_batch_with_size mbuf_alloc_bulk b len =
    alloc_packet_batch mbuf_alloc_bulk b len (capacity b)

unfoldable pub allocate_partial_batch_with_size :
    (ℕ → ℕ → Option (List ℕ)) → PacketBatch → ℕ → ℕ → PacketBatch × Result (Unit {0})
unfolding alloc_packet_batch
allocate_partial_batch_with_size mbuf_alloc_bulk b len cnt =
    let r = alloc_packet_batch mbuf_alloc_bulk b len cnt in
    (r.0, elim r.1 [ ok _ ↦ ok tt | err _ ↦ err ErrorKind.failed_allocation ])

unfoldable pub deallocate_batch : (List ℕ → ℕ) → PacketBatch → PacketBatch × Result (Unit {0})
unfolding free_packet_batch
deallocate_batch mbuf_free_bulk b =
    let r = free_packet_batch mbuf_free_bulk b in
    (r.0, if r.1 then ok tt else err ErrorKind.failed_deallocation)

-- The port fills the slice that it is given, of the batch's capacity.
unfoldable pub recv_internal : (List ℕ → List ℕ × Result ℕ) → PacketBatch → PacketBatch × Result ℕ
recv_internal port b =
    let full = add_to_batch b (capacity b) in
    let r = port (array full) in
    let filled = record full { slots = write_slice 0 full.slots r.0 } in
    elim r.1 [ err e ↦ (filled, err e) | ok recv ↦ (add_to_batch filled recv, ok recv) ]

unfoldable pub recv :
    (List ℕ → ℕ) → (List ℕ → List ℕ × Result ℕ) → PacketBatch → PacketBatch × Result ℕ
unfolding deallocate_batch recv_internal
recv mbuf_free_bulk port b =
    let r = deallocate_batch mbuf_free_bulk b in
    elim r.1 [ err e ↦ (r.0, err e) | ok _ ↦ recv_internal port r.0 ]

-- One round of the loop, which ends with `break`.
unfoldable pub send_q : (List ℕ → Result ℕ) → PacketBatch → Run (PacketBatch × Result ℕ)
unfolding consume_batch_partial
send_q port b = if b.len == 0 then returns (b, ok 0) else elim (port (array b)) [
  | err e ↦ returns (b, err e)
  | ok sent ↦ bind (consume_batch_partial b sent) λ b'. returns (b', ok sent)
]
