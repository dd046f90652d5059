-- ===== src/Consensus/Accept.antt =====
-- modules/consensus/accept.go: blocks join the consensus set. `none` is a panic. The relaying of
-- blocks, the blocks of the future that are tried again, and subscribers are not modelled.
pub mod Tip
pub mod Changes
pub mod Loop
use sia_prime.Prelude.{
  ltb, leb, ◌==◌, if◌then◌else◌, leb→le, ltb→lt, ==→eq, ==→ne, eq→==, Bool-cases, Option-cases,
  length, get_elem?, take, drop, replicate, All, sum_of, length-append, take-length_append,
  drop-length_append, sum_of-append, drop-append, All-append, All-map, ℕ, zero, suc, ◌+◌, ◌-◌, ◌*◌,
  ◌/◌, ◌%◌, ◌^◌, ◌≤◌, ◌<◌, inl-injective, inr-injective, ◌≡◌, refl, sym, ap, ◌∙◌, subst, ◌≢◌, ◌↔◌,
  ◌⊎◌, inl, inr, Bool, true, false, not, ◌&&◌, ◌||◌, Option, none, some, some-injective, List, [],
  ◌∷◌, ◌++◌, map, append-nil, append_assoc, arith,
}
use sia_prime.Types.Data.{
  Currency, Hash, BlockHeight, SiaPublicKey, UnlockConditions, SiacoinInput, SiacoinOutput,
  SiafundInput, SiafundOutput, FileContract, FileContractRevision, StorageProof, CoveredFields,
  TransactionSignature, Transaction, Block, BlockHeader,
}
use sia_prime.Types.Network.{Network, standard, add64, sub64, mul64}
use sia_prime.Types.Ids.{
  Crypto, specifier_siacoin_output, specifier_file_contract, specifier_siafund_output,
  specifier_storage_proof_output, transaction_id, siacoin_output_id, file_contract_id,
  siafund_output_id, sia_claim_output_id, storage_proof_output_id, merkle_leaves, header, header_id,
  block_id, miner_payout_id, unlock_hash,
}
use sia_prime.Types.Outcome.{
  TxnError, double_spend, file_contract_output_sum_violation, file_contract_window_end_violation,
  file_contract_window_start_violation, non_zero_claim_start, non_zero_revision,
  storage_proof_with_outputs, timelock_not_satisfied, transaction_too_large, zero_miner_fee,
  zero_output, zero_revision, entropy_key, frivolous_signature, invalid_pub_key_index,
  missing_signatures, premature_signature, public_key_overuse, sorted_unique_violation,
  unlock_hash_wrong_algorithm, whole_transaction_violation, invalid_signature, Outcome, ◌>>◌, each,
  then-none, none-then, each-none, none-each, each-All, then_iff,
}
use sia_prime.Consensus.Bolt.{Bolt, IsLawful, SameBucket}
use sia_prime.Consensus.Data.{
  DiffDirection, diff_apply, diff_revert, SiacoinOutputDiff, FileContractDiff, SiafundOutputDiff,
  DelayedSiacoinOutputDiff, SiafundPoolDiff, ProcessedBlock, Contracts, State,
}
use sia_prime.Consensus.Panic.{
  ◌>>=◌, pure, bind-some, is_some, none-some, loop, loop_down, try_loop, try_loop_down,
  try_loop_from, if-ap, if-==, ==-refl, if-if-==, if-if,
}
use sia_prime.Consensus.Database.{
  dev_addr, get_path, current_block_id, get_block_map, current_processed_block, add_block_map,
  push_path, pop_path, is_siacoin_output, get_siacoin_output, add_siacoin_output,
  remove_siacoin_output, get_file_contract, bucket_or_empty, add_file_contract,
  remove_file_contract, get_siafund_output, add_siafund_output, remove_siafund_output,
  DelayedOutputs, add_dsco, remove_dsco, create_dsco_bucket, delete_dsco_bucket,
}
use sia_prime.Consensus.Diffs.{
  same_direction, commit_siacoin_output_diff, commit_file_contract_diff, commit_siafund_output_diff,
  commit_delayed_siacoin_output_diff, commit_siafund_pool_diff, create_upcoming_delayed_output_maps,
  delete_obsolete_delayed_output_maps, commit_each, try_commit_each, commit_node_diffs,
  update_current_path, with_delayed, commit_diff_set,
}
use sia_prime.Consensus.Apply.{
  or_zero_siacoin_output, or_zero_siafund_output, or_zero_file_contract, Work, Rules,
  push_siacoin_output_diff, push_file_contract_diff, push_siafund_output_diff, push_delayed_diff,
  push_siafund_pool_diff, revised_contract, claim_portion, apply_siacoin_input,
  apply_siacoin_inputs, apply_siacoin_output, apply_siacoin_outputs, apply_file_contract,
  apply_file_contracts, apply_file_contract_revision, apply_file_contract_revisions,
  apply_proof_output, apply_storage_proof, apply_storage_proofs, apply_siafund_input,
  apply_siafund_inputs, apply_siafund_output, apply_siafund_outputs, apply_transaction,
}
use sia_prime.Consensus.Validity.{
  ConsensusError, altered_revision_payouts, invalid_storage_proof, late_revision,
  low_revision_number, missing_siacoin_output, nil_item, siacoin_input_output_mismatch,
  siafund_input_output_mismatch, unfinished_file_contract, unrecognized_file_contract_id,
  wrong_unlock_conditions, standalone, Failure, calculate_leaves, add_siafund_outputs,
  standalone_failure, input_sum, valid_siacoins, storage_proof_segment, segment_length,
  valid_storage_proof, valid_storage_proofs, valid_file_contract_revision,
  valid_file_contract_revisions, siafund_input_sum, valid_siafunds, valid_transaction,
}
use sia_prime.Consensus.Generate.{
  SiafundFork, genesis_siafund_diff, forked_siafund_diff, validate_and_apply, finish_block,
  create_maturity_bucket, fix_siafund_allocation, maybe_fix_siafund_allocation, complete_block,
  complete_if_valid, generate_and_apply_diff,
}
use sia_prime.Consensus.Fork.{
  InvalidBlock, path_id, is_on_path, backtrack, backtrack_to_current_path, revert_loop,
  revert_to_block, first_applied, with_applied, apply_known_block, apply_new_block, apply_block,
  apply_blocks, apply_until_block, with_reverted, fork_blockchain,
}
use sia_prime.Types.Target.{
  Target, Rat, rat_inv, rat_add, rat_mul, root_depth, int_to_target, rat, rat_to_target, inverse,
  add_difficulties, subtract_difficulties, mul_difficulty, difficulty,
}
use sia_prime.Consensus.Blocks.{
  BlockError, early_timestamp, nonce_requirements, block_unsolved, large_block,
  extreme_future_timestamp, bad_miner_payouts, future_timestamp, asic_hardfork_factor, sum_payouts,
  check_miner_payouts_without_dev_fund, subsidy_unlock_hash, check_split,
  check_miner_payouts_with_dev_fund, check_miner_payouts, check_target, validate_block,
}
use sia_prime.Consensus.Rules.{
  median_timestamp_window, insert_timestamp, sort_timestamps, parent_times, window_times,
  minimum_valid_child_timestamp,
}
use sia_prime.Consensus.Difficulty.{
  TargetRules, standard_targets, surpass_threshold, heavier_than, child_depth, time_delta,
  signed_square, clamp_time, clamp_block_time, target_block_time, visible_hashrate, clamp_target,
  block_time_of, child_target_oak, BlockTotals, next_total_time, next_total_target,
  clamp_target_adjustment, window_begin, target_adjustment_base, parent_target, set_child_target,
  store_block_totals, get_block_totals, child_of, next_target, new_child,
}
use sia_prime.Consensus.ChangeLog.{
  ChangeEntry, ChangeNode, ChangeLog, entry_id, genesis_entry, or_zero_id, link_tail,
  append_change_log, get_entry, next_entry, create_change_log,
}
use sia_prime.Consensus.Headers.{
  AcceptError, dos_block_error, block_known, orphan, non_linear_chain, non_extending_block,
  log_error, fewer_applied, block_error, consensus_error, ConsensusSet, is_dos_block,
  validate_child, validate_header_and_block, validate_header_child, validate_header,
}

unfoldable pub block_ids : Crypto → List ProcessedBlock → List Hash
block_ids crypto pbs = map (λ pb. block_id crypto pb.block) pbs

-- What `addBlockToTree` does: the block joins the tree, and the chain is moved to it if it is heavier.
pub data Added (db : Bolt) : Type 0 where
  extended : ChangeEntry → ConsensusSet db → Added db
  non_extending : ConsensusSet db → Added db
  refused : AcceptError → List Hash → Added db

-- The blocks that were accepted in a row, and the changes that they made; or an error, with the blocks
-- known to be invalid.
pub data Batch (db : Bolt) : Type 0 where
  accepted : ConsensusSet db → List ChangeEntry → Batch db
  rejected : AcceptError → List Hash → Batch db

-- What `managedAcceptBlocks` returns, with the consensus set and the changes for subscribers.
pub record Response (db : Bolt) : Type 0 where
  pub error : Option AcceptError
  pub set : ConsensusSet db
  pub changes : List ChangeEntry

-- Each block is the child of the one before it.
unfoldable pub is_linear : Crypto → Hash → List Block → Bool
is_linear crypto id [] = true
is_linear crypto id (b ∷ bs) = (b.parent_id == id) && is_linear crypto (block_id crypto b) bs

unfoldable pub are_consecutive : Crypto → List Block → Bool
are_consecutive crypto [] = true
are_consecutive crypto (b ∷ bs) = is_linear crypto (block_id crypto b) bs

-- The change is added to the log.
unfoldable pub record_change :
    {db : Bolt}
    → Rules
    → ConsensusSet db
    → List ProcessedBlock
    → List ProcessedBlock
    → State db
    → Added db
record_change rules cs reverted applied s =
    let ce : ChangeEntry = record {
      reverted_blocks = block_ids rules.crypto reverted;
      applied_blocks = block_ids rules.crypto applied;
    } in
    elim (append_change_log rules.crypto ce cs.change_log) [
      | none ↦ Added.refused log_error cs.dos_blocks
      | some log ↦ Added.extended ce (record cs { tx = s; change_log = log })
    ]

module _ {db : Bolt} (rules : Rules) (targets : TargetRules) (fork : SiafundFork)
    (valid_signatures : BlockHeight → Transaction → Outcome) where
  -- The chain is moved to the new block.
  unfoldable pub move_to_child : ProcessedBlock → ConsensusSet db → Option (Added db)
  move_to_child child cs = fork_blockchain rules fork valid_signatures child cs.tx >>= λ r. elim r [
    | inl invalid ↦
        some (Added.refused (consensus_error invalid.reason) (invalid.dos_block ∷ cs.dos_blocks))
    | inr (reverted, (applied, s)) ↦ some (record_change rules cs reverted applied s)
  ]

  -- The chain is moved if the new block is heavier.
  unfoldable pub move_if_heavier : ProcessedBlock → ConsensusSet db → Bool → Option (Added db)
  move_if_heavier child cs false = some (Added.non_extending cs)
  move_if_heavier child cs true = move_to_child child cs

  unfoldable pub add_block_to_tree : Block → ProcessedBlock → ConsensusSet db → Option (Added db)
  add_block_to_tree b parent cs =
      new_child db rules targets parent b (cs.oak, cs.tx.block_map) >>= λ (child, oak, block_map).
      let joined = record cs { tx = record cs.tx { block_map = block_map }; oak = oak } in
      current_processed_block db joined.tx >>= λ current.
      heavier_than child current >>= λ heavier. move_if_heavier child joined heavier

-- After an error the database is as before.
unfoldable pub respond : {db : Bolt} → ConsensusSet db → Batch db → Response db
respond cs (Batch.rejected e dos) = record {
  error = some e;
  set = record cs { dos_blocks = dos };
  changes = [];
}
respond cs (Batch.accepted cs' []) = record {
  error = some non_extending_block;
  set = cs';
  changes = [];
}
respond cs (Batch.accepted cs' (ce ∷ changes)) = record {
  error = none;
  set = cs';
  changes = ce ∷ changes;
}

-- The outcome of a block in the loop: the changes are kept in the order of the blocks.
unfoldable pub after_added : {db : Bolt} → List ChangeEntry → Added db → Batch db
after_added changes (Added.extended ce cs) =
    if ltb (length ce.applied_blocks) (length ce.reverted_blocks)
    then Batch.rejected fewer_applied cs.dos_blocks
    else Batch.accepted cs (changes ++ (ce ∷ []))
after_added changes (Added.non_extending cs) = Batch.accepted cs changes
after_added changes (Added.refused e dos) = Batch.rejected e dos

unfoldable pub is_known : AcceptError → Bool
is_known block_known = true
is_known e = false

module _ {db : Bolt} (rules : Rules) (targets : TargetRules) (now : ℕ) (fork : SiafundFork)
    (valid_signatures : BlockHeight → Transaction → Outcome) where
  -- Known blocks are skipped.
  unfoldable pub add_valid_block :
      ConsensusSet db → List ChangeEntry → Block → AcceptError ⊎ ProcessedBlock → Option (Batch db)
  add_valid_block cs changes b (inl e) =
      some (if is_known e then Batch.accepted cs changes else Batch.rejected e cs.dos_blocks)
  add_valid_block cs changes b (inr parent) =
      add_block_to_tree rules targets fork valid_signatures b parent cs >>= λ r.
      some (after_added changes r)

  -- The body of the loop.
  unfoldable pub accept_block : ConsensusSet db → List ChangeEntry → Block → Option (Batch db)
  accept_block cs changes b =
      validate_header_and_block rules now cs b (block_id rules.crypto b) >>= λ r.
      add_valid_block cs changes b r

  unfoldable pub accept_loop : List Block → ConsensusSet db → List ChangeEntry → Option (Batch db)
  accept_loop [] cs changes = some (Batch.accepted cs changes)
  accept_loop (b ∷ bs) cs changes = accept_block cs changes b >>= λ r. elim r [
    | accepted cs' changes' ↦ accept_loop bs cs' changes'
    | rejected e dos ↦ some (Batch.rejected e dos)
  ]

  unfoldable pub managed_accept_blocks : List Block → ConsensusSet db → Option (Response db)
  managed_accept_blocks blocks cs =
      if are_consecutive rules.crypto blocks
      then (accept_loop blocks cs [] >>= λ r. some (respond cs r))
      else some (record { error = some non_linear_chain; set = cs; changes = [] })
