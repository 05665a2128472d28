-- ===== src/Segments/Tests.antt =====
-- Runs of the segment list of framework/src/state/reordered_buffer/reordered_buffer.rs.
use net_bricks.Prelude.{◌≡◌, refl, [], ◌∷◌, none, some, arith}
use net_bricks.Prelude.Run.{out_of_fuel}
use net_bricks.Segments.{Segment, SegmentList, merge_at_idx}
use net_bricks.Segments.Single.{IsSingle, merge_at_idx_gap}

-- Sequence numbers 10 to 14 in the node 0.
abbrev ten : Segment
ten = record { prev = none; seq = 10; len = 5; next = none; idx = 0 }

abbrev one_node : SegmentList
one_node = record { storage = ten ∷ []; available = []; head = some 0; tail = some 0 }

one_node-IsSingle : IsSingle one_node 0 10 5
one_node-IsSingle = record {
  segment = ten;
  is_head = refl;
  stored = refl;
  starts = refl;
  spans = refl;
  last = refl;
}

abbrev before_gap : Segment
before_gap = record { prev = none; seq = 10; len = 5; next = some 1; idx = 0 }

abbrev after_gap : Segment
after_gap = record { prev = some 0; seq = 20; len = 3; next = none; idx = 1 }

abbrev two_nodes : SegmentList
two_nodes = record {
  storage = before_gap ∷ after_gap ∷ [];
  available = [];
  head = some 0;
  tail = some 1;
}

merge_at_idx_gap_example : merge_at_idx 1000 two_nodes 0 ≡ out_of_fuel
merge_at_idx_gap_example =
    merge_at_idx_gap 1000 two_nodes 0 1 before_gap after_gap refl refl refl (omega arith)
