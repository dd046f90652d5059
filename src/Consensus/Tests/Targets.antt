-- ===== src/Consensus/Tests/Targets.antt =====
-- Runs of modules/consensus/difficulty.go, processedblock.go and block_rules.go, and types/target.go.
use sia_prime.Prelude.{
  leb, length, replicate, ℕ, ◌-◌, ◌*◌, ◌/◌, ◌≤◌, ◌<◌, ◌≡◌, refl, ◌≢◌, true, false, some, List, [],
  ◌∷◌, arith,
}
use sia_prime.Prelude.Int.{pos}
use sia_prime.Types.Network.{standard}
use sia_prime.Types.Target.{
  Target, int_to_target, rat, rat_to_target, inverse, add_difficulties, mul_difficulty,
}
use sia_prime.Types.Target.Laws.{add_difficulties-le}
use sia_prime.Consensus.Bolt.AssocList.{assoc_list}
use sia_prime.Consensus.Data.{ProcessedBlock}
use sia_prime.Consensus.Difficulty.{
  standard_targets, heavier_than, time_delta, signed_square, clamp_time, clamp_block_time,
  target_block_time, child_target_oak,
}
use sia_prime.Consensus.Difficulty.Weight.{heavier_than-orders}
use sia_prime.Consensus.Difficulty.Oak.{target_block_time_bounds, child_target_oak_bounds}
use sia_prime.Consensus.Rules.{parent_times, window_times, minimum_valid_child_timestamp}
use sia_prime.Consensus.Rules.Median.{count, minimum_valid_child_timestamp_median}

abbrev with_depth : Target → ProcessedBlock
with_depth d = record {
  block = record {
    parent_id = 0;
    nonce = 0;
    timestamp = 1000 - d;
    miner_payouts = [];
    transactions = [];
  };
  height = 5;
  depth = d;
  child_target = 600;
  diffs_generated = false;
  siacoin_output_diffs = [];
  file_contract_diffs = [];
  siafund_output_diffs = [];
  delayed_siacoin_output_diffs = [];
  siafund_pool_diffs = [];
}

add_difficulties-le_example :
    (z : Target) × (add_difficulties 100 300 ≡ some z) × (z ≤ 100) × (z ≤ 300)
add_difficulties-le_example = add_difficulties-le 100 300 (omega arith) (omega arith)

-- Half of the difficulties' targets: 100 * 300 / 400.
add_difficulties_run : add_difficulties 100 300 ≡ some 75
unfolding add_difficulties inverse rat rat_to_target int_to_target
add_difficulties_run = refl

heavier_run : heavier_than (with_depth 80) (with_depth 100) ≡ some true
unfolding heavier_than add_difficulties mul_difficulty inverse rat rat_to_target int_to_target
heavier_run = refl

heavier_than-orders_example :
    (heavier_than (with_depth 100) (with_depth 80) ≢ some true)
    × (heavier_than (with_depth 100) (with_depth 200) ≡ some true
        → (80 < 200) × (heavier_than (with_depth 200) (with_depth 80) ≢ some true))
heavier_than-orders_example =
    heavier_than-orders (with_depth 80) (with_depth 100) (with_depth 200) heavier_run

target_block_time_bounds_example :
    (n : ℕ) × (target_block_time standard_targets 2000 1542000000 ≡ pos n)
    × (600 / 3 ≤ n)
    × (n ≤ 600 * 3)
target_block_time_bounds_example =
    target_block_time_bounds standard_targets 2000 1542000000 (omega arith)

-- 155,776 seconds late: the square over 10^7 is beyond the limit.
target_block_time_late : target_block_time standard_targets 2000 1542311555 ≡ pos 200
unfolding target_block_time time_delta signed_square clamp_block_time clamp_time
target_block_time_late = refl

child_target_oak_bounds_example :
    (t : Target) × (child_target_oak standard standard_targets
        (pos 120000)
        1000
        5000
        2000
        1542000000
      ≡ some t)
    × (1000 * 5000 / 1004 ≤ t)
    × (t ≤ 1004 * 5000 / 1000)
child_target_oak_bounds_example =
    child_target_oak_bounds standard (pos 120000) 1000 5000 2000 1542000000 (omega arith)
      (omega arith) refl

abbrev two_blocks : List (ℕ × ProcessedBlock)
two_blocks =
    (
      8,
      record (with_depth 10) {
        block = record {
          parent_id = 9;
          nonce = 0;
          timestamp = 700;
          miner_payouts = [];
          transactions = [];
        };
      },
    )
    ∷ (9, with_depth 400)
    ∷ []

abbrev last_block : ProcessedBlock
last_block = record (with_depth 10) {
  block = record {
    parent_id = 8;
    nonce = 0;
    timestamp = 650;
    miner_payouts = [];
    transactions = [];
  };
}

abbrev times : List ℕ
times = 650 ∷ 700 ∷ replicate 9 600

times-run : window_times assoc_list two_blocks last_block ≡ some times
unfolding window_times parent_times
times-run = refl

minimum_valid_child_timestamp_median_example :
    (m : ℕ) × (minimum_valid_child_timestamp assoc_list two_blocks last_block ≡ some m)
    × (length times ≡ 11)
    × (6 ≤ count (λ y. leb y m) times)
    × (6 ≤ count (λ y. leb m y) times)
minimum_valid_child_timestamp_median_example =
    minimum_valid_child_timestamp_median assoc_list two_blocks last_block times times-run
