-- ===== src/Consensus/Difficulty.antt =====
-- modules/consensus/difficulty.go and processedblock.go: the weight of chains, and the target of the
-- next block. Where the code divides by zero or slices nil bytes it panics, which is `none`.
pub mod Weight
pub mod Oak
use sia_prime.Prelude.{
  ltb, leb, ◌==◌, if◌then◌else◌, leb→le, ltb→lt, ==→eq, ==→ne, eq→==, Bool-cases, Option-cases,
  length, get_elem?, take, drop, replicate, All, sum_of, length-append, take-length_append,
  drop-length_append, sum_of-append, drop-append, All-append, All-map, ℕ, zero, suc, ◌+◌, ◌-◌, ◌*◌,
  ◌/◌, ◌%◌, ◌^◌, ◌≤◌, ◌<◌, inr-injective, ◌≡◌, refl, sym, ap, ◌∙◌, subst, ◌≢◌, ◌↔◌, ◌⊎◌, inl, inr,
  Bool, true, false, not, ◌&&◌, ◌||◌, Option, none, some, some-injective, List, [], ◌∷◌, ◌++◌, map,
  append-nil, append_assoc, arith,
}
use sia_prime.Prelude.Int.{
  ℤ, pos, negsuc, pos_part, neg_part, sub_ℕ, ◌+ℤ◌, ◌-ℤ◌, scale, quot, is_negative, negate, uint64,
  of_uint64, int64, ltbℤ,
}
use sia_prime.Types.Data.{
  Currency, Hash, BlockHeight, SiaPublicKey, UnlockConditions, SiacoinInput, SiacoinOutput,
  SiafundInput, SiafundOutput, FileContract, FileContractRevision, StorageProof, CoveredFields,
  TransactionSignature, Transaction, Block, BlockHeader,
}
use sia_prime.Types.Network.{Network, standard, add64, sub64, mul64}
use sia_prime.Types.Target.{
  Target, Rat, rat_inv, rat_add, rat_mul, root_depth, int_to_target, rat, rat_to_target, inverse,
  add_difficulties, subtract_difficulties, mul_difficulty, difficulty,
}
use sia_prime.Types.Ids.{
  Crypto, specifier_siacoin_output, specifier_file_contract, specifier_siafund_output,
  specifier_storage_proof_output, transaction_id, siacoin_output_id, file_contract_id,
  siafund_output_id, sia_claim_output_id, storage_proof_output_id, merkle_leaves, header, header_id,
  block_id, miner_payout_id, unlock_hash,
}
use sia_prime.Types.Currency.{
  add, sub, mul, div, equals, is_zero, round_down, mul_rat, mul_tax, to_uint64, siafund_count,
  siafund_count-pos, tax_float_num, tax_float_den, tax_float_den-pos, mul_float_tax, tax, post_tax,
}
use sia_prime.Consensus.Bolt.{Bolt, IsLawful, SameBucket}
use sia_prime.Consensus.Data.{
  DiffDirection, diff_apply, diff_revert, SiacoinOutputDiff, FileContractDiff, SiafundOutputDiff,
  DelayedSiacoinOutputDiff, SiafundPoolDiff, ProcessedBlock, Contracts, State,
}
use sia_prime.Consensus.Panic.{
  ◌>>=◌, pure, bind-some, is_some, none-some, loop, loop_down, try_loop, try_loop_down,
  try_loop_from, if-ap, if-==, ==-refl, if-if-==, if-if,
}
use sia_prime.Consensus.Apply.{
  or_zero_siacoin_output, or_zero_siafund_output, or_zero_file_contract, Work, Rules,
  push_siacoin_output_diff, push_file_contract_diff, push_siafund_output_diff, push_delayed_diff,
  push_siafund_pool_diff, revised_contract, claim_portion, apply_siacoin_input,
  apply_siacoin_inputs, apply_siacoin_output, apply_siacoin_outputs, apply_file_contract,
  apply_file_contracts, apply_file_contract_revision, apply_file_contract_revisions,
  apply_proof_output, apply_storage_proof, apply_storage_proofs, apply_siafund_input,
  apply_siafund_inputs, apply_siafund_output, apply_siafund_outputs, apply_transaction,
}

-- The constants of types/constants.go that govern the targets.
pub record TargetRules : Type 0 where
  pub block_frequency : ℕ
  pub genesis_timestamp : ℕ
  pub target_window : BlockHeight
  pub max_adjustment_up : Rat
  pub max_adjustment_down : Rat
  pub oak_decay_num : ℕ
  pub oak_decay_denom : ℕ
  pub oak_max_block_shift : ℕ
  pub oak_max_rise : Rat
  pub oak_max_drop : Rat
  pub asic_total_time : ℕ
  pub asic_total_target : Target

-- build.Release == "standard"
abbrev pub standard_targets : TargetRules
standard_targets = record {
  block_frequency = 600;
  genesis_timestamp = 1540955779;
  target_window = 1000;
  max_adjustment_up = record { num = 25; den = 10 };
  max_adjustment_down = record { num = 10; den = 25 };
  oak_decay_num = 995;
  oak_decay_denom = 1000;
  oak_max_block_shift = 3;
  oak_max_rise = record { num = 1004; den = 1000 };
  oak_max_drop = record { num = 1000; den = 1004 };
  asic_total_time = 120000;
  asic_total_target = 32 * 256 ^ 23;
}

-- How much heavier a competing chain has to be, as a share of the current block's difficulty.
abbrev pub surpass_threshold : Rat
surpass_threshold = record { num = 20; den = 100 }

unfoldable pub heavier_than : ProcessedBlock → ProcessedBlock → Option Bool
heavier_than pb cmp = do
  share ← mul_difficulty cmp.child_target surpass_threshold
  requirement ← add_difficulties cmp.depth share
  pure (ltb pb.depth requirement)

unfoldable pub child_depth : ProcessedBlock → Option Target
child_depth pb = add_difficulties pb.depth pb.child_target

-- The time that a block should take, from how far the chain is ahead of the clock, in int64.
unfoldable pub time_delta : TargetRules → BlockHeight → ℕ → ℤ
time_delta rules parent_height parent_timestamp =
    let expected = int64 (
      of_uint64 (mul64 rules.block_frequency parent_height) +ℤ of_uint64 rules.genesis_timestamp) in
    int64 (expected -ℤ of_uint64 parent_timestamp)

-- The square of the delta, with the delta's sign.
unfoldable pub signed_square : ℤ → ℤ
signed_square delta =
    let square = int64 (pos ((pos_part delta + neg_part delta) ^ 2)) in
    if is_negative delta then int64 (negate square) else square

unfoldable pub clamp_time : ℕ → ℕ → ℤ → ℤ
clamp_time low high time =
    let raised = if ltbℤ time (pos low) then pos low else time in
    if ltbℤ (pos high) raised then pos high else raised

-- A third, and three times, of the frequency are the limits.
unfoldable pub clamp_block_time : TargetRules → ℤ → ℤ
clamp_block_time rules time =
    clamp_time (rules.block_frequency / rules.oak_max_block_shift)
      (rules.block_frequency * rules.oak_max_block_shift) time

unfoldable pub target_block_time : TargetRules → BlockHeight → ℕ → ℤ
unfolding time_delta signed_square clamp_block_time
target_block_time rules parent_height parent_timestamp =
    let shift = quot (signed_square (time_delta rules parent_height parent_timestamp)) 10000000 in
    clamp_block_time rules (int64 (pos rules.block_frequency +ℤ shift))

-- Hashes per second, and at least one.
unfoldable pub visible_hashrate : ℤ → Target → Currency
visible_hashrate total_time total_target =
    let seconds = if ltbℤ total_time (pos 1) then 1 else uint64 total_time in
    let hashrate = difficulty total_target / seconds in
    if is_zero hashrate then add hashrate 1 else hashrate

-- The clamps do not hold for the block at the hardfork height.
unfoldable pub clamp_target : Bool → Target → Target → Target → Target
clamp_target hardfork max_new min_new target =
    let raised = if ltb target max_new && not hardfork then max_new else target in
    if ltb min_new raised && not hardfork then min_new else raised

-- As a uint64, and at least one.
unfoldable pub block_time_of : TargetRules → BlockHeight → ℕ → ℕ
block_time_of rules parent_height parent_timestamp =
    let time = uint64 (target_block_time rules parent_height parent_timestamp) in
    if is_zero time then 1 else time

unfoldable pub child_target_oak :
    Network → TargetRules → ℤ → Target → Target → BlockHeight → ℕ → Option Target
child_target_oak net rules total_time total_target current_target parent_height parent_timestamp =
    let hardfork = add64 parent_height 1 == net.asic_hardfork_height in
    do
      max_new ← mul_difficulty current_target rules.oak_max_rise
      min_new ← mul_difficulty current_target rules.oak_max_drop
      pure (
          clamp_target hardfork max_new min_new (
            rat_to_target (record {
              num = root_depth;
              den =
                  mul (visible_hashrate total_time total_target)
                    (block_time_of rules parent_height parent_timestamp);
            })))

-- The values of the oak bucket: the total time, and the total target.
abbrev pub BlockTotals : Type 0
BlockTotals = ℤ × Target

unfoldable pub next_total_time : Network → TargetRules → BlockHeight → ℤ → ℕ → ℕ → ℤ
next_total_time net rules height prev_total_time parent_timestamp timestamp =
    let decayed = quot (int64 (scale prev_total_time rules.oak_decay_num)) rules.oak_decay_denom in
    if add64 height 1 == net.asic_hardfork_height
    then pos rules.asic_total_time
    else int64 (decayed +ℤ int64 (of_uint64 timestamp -ℤ of_uint64 parent_timestamp))

unfoldable pub next_total_target :
    Network → TargetRules → BlockHeight → Target → Target → Option Target
next_total_target net rules height prev_total_target target = do
  decayed ←
      mul_difficulty prev_total_target
        (record { num = rules.oak_decay_num; den = rules.oak_decay_denom })
  total ← add_difficulties decayed target
  pure (if add64 height 1 == net.asic_hardfork_height then rules.asic_total_target else total)

-- The first window: a share of the adjustment, which may be negative where time ran backwards.
unfoldable pub clamp_target_adjustment : TargetRules → ℤ → ℕ → Rat
clamp_target_adjustment rules num den =
    let up = rules.max_adjustment_up in
    let down = rules.max_adjustment_down in
    if ltb (up.num * den) (pos_part num * up.den)
    then up
    else if ltb (pos_part num * down.den) (down.num * den)
    then down
    else record { num = pos_part num; den = den }

module _ (db : Bolt) where
  -- The loop back through the parents, with the blocks left and the blocks passed.
  unfoldable pub window_begin : db.Bucket ProcessedBlock → ℕ → Hash → Hash → ℕ → Option (Hash × ℕ)
  window_begin block_map zero parent current size = some (current, size)
  window_begin block_map (suc left) parent current size = elim (parent == 0) [
    | true ↦ some (current, size)
    | false ↦ db.get parent block_map >>= λ p.
        window_begin block_map left p.block.parent_id parent (size + 1)
  ]

  -- The time passed over the time expected.
  unfoldable pub target_adjustment_base :
      TargetRules → Hash → db.Bucket ProcessedBlock → ProcessedBlock → Option (ℤ × ℕ)
  target_adjustment_base rules id block_map pb =
      window_begin block_map rules.target_window pb.block.parent_id id 0 >>= λ (current, size).
      db.get current block_map >>= λ first.
      let expected = mul64 rules.block_frequency size in
      if expected == 0
      then none
      else some (of_uint64 (sub64 pb.block.timestamp first.block.timestamp), expected)

  -- A parent that is missing reads as the zero block.
  unfoldable pub parent_target : Hash → db.Bucket ProcessedBlock → Target
  parent_target id block_map = elim (db.get id block_map) [
    | none ↦ 0
    | some parent ↦ parent.child_target
  ]

  unfoldable pub set_child_target :
      TargetRules → Hash → db.Bucket ProcessedBlock → ProcessedBlock → Option Target
  set_child_target rules id block_map pb =
      let parent = parent_target pb.block.parent_id block_map in
      let adjusted = target_adjustment_base rules id block_map pb >>= λ (num, den).
      some (rat_to_target (rat_mul (rat parent) (clamp_target_adjustment rules num den))) in
      if pb.height % (rules.target_window / 2) == 0 then adjusted else some parent

  -- The totals are stored under the block's id, and returned.
  unfoldable pub store_block_totals :
      Network
      → TargetRules
      → BlockHeight
      → Hash
      → BlockTotals
      → ℕ
      → ℕ
      → Target
      → db.Bucket BlockTotals
      → Option (BlockTotals × db.Bucket BlockTotals)
  store_block_totals net rules height id (prev_time, prev_target) parent_timestamp timestamp target
        oak =
      do
        total_target ← next_total_target net rules height prev_target target
        let totals : BlockTotals =
            (next_total_time net rules height prev_time parent_timestamp timestamp, total_target)
        pure (totals, db.put id totals oak)

  unfoldable pub get_block_totals : Hash → db.Bucket BlockTotals → Option BlockTotals
  get_block_totals id oak = db.get id oak

  abbrev pub child_of : ProcessedBlock → Block → Target → Target → ProcessedBlock
  child_of pb b depth target = record {
    block = b;
    height = add64 pb.height 1;
    depth = depth;
    child_target = target;
    diffs_generated = false;
    siacoin_output_diffs = [];
    file_contract_diffs = [];
    siafund_output_diffs = [];
    delayed_siacoin_output_diffs = [];
    siafund_pool_diffs = [];
  }

  -- The target of the children of a new block, from the totals up to its parent.
  unfoldable pub next_target :
      Network
      → TargetRules
      → Hash
      → db.Bucket ProcessedBlock
      → ProcessedBlock
      → ProcessedBlock
      → BlockTotals
      → Option Target
  next_target net rules id block_map pb child (total_time, total_target) =
      if ltb pb.height net.oak_hardfork_block
      then set_child_target rules id block_map child
      else child_target_oak net rules total_time total_target pb.child_target pb.height
          pb.block.timestamp

  unfoldable pub new_child :
      Rules
      → TargetRules
      → ProcessedBlock
      → Block
      → db.Bucket BlockTotals × db.Bucket ProcessedBlock
      → Option (ProcessedBlock × db.Bucket BlockTotals × db.Bucket ProcessedBlock)
  new_child rules targets pb b (oak, block_map) = do
    let id = block_id rules.crypto b
    depth ← child_depth pb
    totals ← get_block_totals b.parent_id oak
    (_, oak') ←
        store_block_totals rules.network targets (add64 pb.height 1) id totals pb.block.timestamp
          b.timestamp pb.child_target oak
    target ← next_target rules.network targets id block_map pb (child_of pb b depth 0) totals
    let child = child_of pb b depth target
    pure (child, oak', db.put id child block_map)
