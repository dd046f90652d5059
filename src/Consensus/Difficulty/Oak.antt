-- ===== src/Consensus/Difficulty/Oak.antt =====
-- modules/consensus/difficulty.go: the limits of the Oak adjustment.
use sia_prime.Prelude.{◌==◌, ℕ, ◌*◌, ◌/◌, ◌^◌, ◌≤◌, ◌<◌, ◌≡◌, refl, false, some, arith}
use sia_prime.Prelude.Int.{ℤ, pos, negsuc, pos_part}
use sia_prime.Types.Data.{BlockHeight}
use sia_prime.Types.Network.{Network, add64}
use sia_prime.Types.Target.{Target, root_depth, int_to_target, rat_to_target}
use sia_prime.Types.Target.Laws.{mul_difficulty_lem, int_to_target-le}
use sia_prime.Types.Currency.{mul}
use sia_prime.Consensus.Difficulty.{
  TargetRules, standard_targets, clamp_time, clamp_block_time, target_block_time, visible_hashrate,
  clamp_target, block_time_of, child_target_oak,
}
use native.Mathlib.Nat.{div-le_self}

clamp_time_bounds :
    (low high : ℕ) (time : ℤ)
    → low ≤ high
    → (n : ℕ) × (clamp_time low high time ≡ pos n) × (low ≤ n) × (n ≤ high)
unfolding clamp_time
clamp_time_bounds low high (pos m) h =
    (pos_part (clamp_time low high (pos m)), ground arith, ground arith, ground arith)
clamp_time_bounds low high (negsuc m) h =
    (pos_part (clamp_time low high (negsuc m)), ground arith, ground arith, ground arith)

-- Whatever the heights and the timestamps, int64 overflows included, a block is to take at least the
-- frequency divided by the shift, and at most the frequency times the shift.
pub target_block_time_bounds :
    (rules : TargetRules) (parent_height : BlockHeight) (parent_timestamp : ℕ)
    → 0 < rules.oak_max_block_shift
    → (n : ℕ) × (target_block_time rules parent_height parent_timestamp ≡ pos n)
      × (rules.block_frequency / rules.oak_max_block_shift ≤ n)
      × (n ≤ rules.block_frequency * rules.oak_max_block_shift)
unfolding target_block_time clamp_block_time
target_block_time_bounds rules height timestamp h =
    let f = rules.block_frequency in
    let s = rules.oak_max_block_shift in
    let low-high : f / s ≤ f * s = let d = div-le_self f s in grind arith in
    clamp_time_bounds (f / s) (f * s) _ low-high

clamp_target_bounds :
    (a b t : Target) → a ≤ b → (a ≤ clamp_target false a b t) × (clamp_target false a b t ≤ b)
unfolding clamp_target
clamp_target_bounds a b t h = ground arith

int_to_target-of_lt : (i : ℕ) → i < 2 ^ 256 → int_to_target i ≡ i
unfolding int_to_target
int_to_target-of_lt i h = ground arith

cap-ge : (a b : ℕ) → a < 2 ^ 256 → a ≤ b → a ≤ int_to_target b
unfolding int_to_target
cap-ge a b h k = ground arith

-- From a target that is not zero, and at any block but the one at the hardfork height, the next target
-- is computed, and it is at most 0.4% away from the current one: with 1004 of 1000 parts as the limit
-- of both the rise and the drop of the difficulty.
pub child_target_oak_bounds :
    (net : Network) (total_time : ℤ) (total_target x : Target) (parent_height : BlockHeight)
    (parent_timestamp : ℕ)
    → 0 < x
    → x < 2 ^ 256
    → (add64 parent_height 1 == net.asic_hardfork_height) ≡ false
    → (t : Target) × (child_target_oak net standard_targets total_time total_target x parent_height
          parent_timestamp
        ≡ some t)
      × (1000 * x / 1004 ≤ t)
      × (t ≤ 1004 * x / 1000)
unfolding child_target_oak
child_target_oak_bounds net total_time total_target x height timestamp pos_x small other =
    let rise = mul_difficulty_lem x 1004 1000 pos_x (omega arith) in
    let drop = mul_difficulty_lem x 1000 1004 pos_x (omega arith) in
    let a = 1000 * x / 1004 in
    let b = 1004 * x / 1000 in
    let a_is : int_to_target a ≡ a = int_to_target-of_lt a (omega arith) in
    let order : a ≤ int_to_target b = cap-ge a b (omega arith) (omega arith) in
    let new : Target = rat_to_target (record {
      num = root_depth;
      den =
          mul (visible_hashrate total_time total_target)
            (block_time_of standard_targets height timestamp);
    }) in
    let (low, high) = clamp_target_bounds a (int_to_target b) new order in
    let cap = int_to_target-le b in
    (
      clamp_target false a (int_to_target b) new,
      rw (rise, drop, other, a_is) refl,
      low,
      omega arith,
    )
