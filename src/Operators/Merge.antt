-- ===== src/Operators/Merge.antt =====
-- framework/src/operators/merge_batch.rs: several parents that act in turn. What a parent does when
-- it acts and when it is done are parameters.
mod Tests
pub mod Turns
use net_bricks.Prelude.{
  ℕ, suc, ◌+◌, List, Option, none, some, if◌then◌else◌, ◌==◌, length, get_elem?, set,
}
use net_bricks.Prelude.Run.{Run, returns, panics, bind}

pub record MergeBatch (T : Type 0) : Type 0 where
  pub parents : List T
  pub which : ℕ

module _ {T : Type 0} where
  abbrev pub new : List T → MergeBatch T
  new parents = record { parents = parents; which = 0 }

  -- An operation on the parent whose turn it is.
  abbrev pub on_parent : (T → T) → MergeBatch T → Run (MergeBatch T)
  on_parent f b = elim (get_elem? b.parents b.which) [
    | none ↦ panics
    | some parent ↦ returns (record b { parents = set b.parents b.which (f parent) })
  ]

  abbrev pub act : (T → T) → MergeBatch T → Run (MergeBatch T)
  act parent_act b = on_parent parent_act b

  abbrev pub advance : MergeBatch T → MergeBatch T
  advance b =
      let next = b.which + 1 in
      if next == length b.parents then record b { which = 0 } else record b { which = next }

  abbrev pub done : (T → T) → MergeBatch T → Run (MergeBatch T)
  done parent_done b = bind (on_parent parent_done b) (λ b. returns (advance b))

  abbrev pub execute : (T → T) → (T → T) → MergeBatch T → Run (MergeBatch T)
  execute parent_act parent_done b = bind (act parent_act b) (done parent_done)
