-- ===== src/Flow/Tests.antt =====
-- Runs of framework/src/utils/flow.rs: the prefix 10.0.0.0/8 with the address 10.1.2.3, and a UDP
-- packet that gets a flow.
use net_bricks.Prelude.{ℕ, ◌/◌, ◌-◌, ◌^◌, ◌≡◌, ◌==◌, arith, List, [], ◌∷◌, get_or}
use net_bricks.Prelude.Run.{returns}
use net_bricks.Flow.{Flow, new, in_range, ipv4_stamp_flow, ipv4_extract_flow}
use net_bricks.Flow.Prefix.{in_range_lem}
use net_bricks.Flow.Stamp.{extract-stamp}

in_range_lem_example :
    in_range (new 167772160 8) 167838211 ≡ (167838211 / 2 ^ (32 - 8) == 167772160 / 2 ^ (32 - 8))
in_range_lem_example =
    in_range_lem 167772160 167838211 8 (omega arith) (omega arith) (omega arith) (omega arith)

abbrev packet : List ℕ
packet =
    69 ∷ 0 ∷ 0 ∷ 28 ∷ 0 ∷ 1 ∷ 0 ∷ 0 ∷ 64 ∷ 17 ∷ 0 ∷ 0 ∷ 10 ∷ 0 ∷ 0 ∷ 1 ∷ 10 ∷ 0 ∷ 0 ∷ 2 ∷ 0 ∷ 53 ∷ 0
    ∷ 54 ∷ 0 ∷ 8 ∷ 0 ∷ 0 ∷ []

abbrev flow : Flow
flow = record {
  src_ip = 3232235777;
  dst_ip = 134744072;
  src_port = 4660;
  dst_port = 443;
  proto = 6;
}

-- It stands for the native checksum.
abbrev first_byte : List ℕ → ℕ
first_byte bytes = get_or bytes 0 0

extract-stamp_example :
    (bytes' : List ℕ) × (ipv4_stamp_flow first_byte flow packet ≡ returns bytes')
    × (ipv4_extract_flow bytes' ≡ returns (record flow { proto = 17 }))
extract-stamp_example =
    extract-stamp first_byte flow packet (omega arith) (omega arith) (omega arith) (omega arith)
      (omega arith) (omega arith)
