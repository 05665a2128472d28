-- ===== src/Utils/Tests.antt =====
-- Sizes that framework/src/utils/mod.rs rounds.
use net_bricks.Prelude.{ℕ, ◌*◌, ◌^◌, ◌≤◌, ◌<◌, ◌≡◌, arith}
use net_bricks.Utils.{round_to_power_of_2}
use net_bricks.Utils.Rounding.{round_to_power_of_2_lem}

round_to_power_of_2_lem_example :
    (k : ℕ) × (k ≤ 63)
    × (round_to_power_of_2 100 ≡ 2 ^ k)
    × (100 ≤ round_to_power_of_2 100)
    × (round_to_power_of_2 100 < 2 * 100)
round_to_power_of_2_lem_example = round_to_power_of_2_lem 100 (omega arith) (omega arith)
