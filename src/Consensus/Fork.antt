-- ===== src/Consensus/Fork.antt =====
-- modules/consensus/fork.go: the chain is moved to another fork. `none` is a panic, or a loop that has
-- run out of its rounds. The sanity checks of debug builds are not modelled.
pub mod Branch
pub mod Revert
pub mod Invalid
use sia_prime.Prelude.{
  ltb, leb, ◌==◌, if◌then◌else◌, leb→le, ltb→lt, ==→eq, ==→ne, eq→==, Bool-cases, Option-cases,
  length, get_elem?, take, drop, replicate, All, sum_of, length-append, take-length_append,
  drop-length_append, sum_of-append, drop-append, All-append, All-map, ℕ, zero, suc, ◌+◌, ◌-◌, ◌*◌,
  ◌/◌, ◌%◌, ◌^◌, ◌≤◌, ◌<◌, inl-injective, inr-injective, ◌≡◌, refl, sym, ap, ◌∙◌, subst, ◌≢◌, ◌↔◌,
  ◌⊎◌, inl, inr, Bool, true, false, not, ◌&&◌, ◌||◌, Option, none, some, some-injective, List, [],
  ◌∷◌, ◌++◌, map, append-nil, append_assoc, arith,
}
use sia_prime.Types.Data.{
  Currency, Hash, BlockHeight, SiaPublicKey, UnlockConditions, SiacoinInput, SiacoinOutput,
  SiafundInput, SiafundOutput, FileContract, FileContractRevision, StorageProof, CoveredFields,
  TransactionSignature, Transaction, Block, BlockHeader,
}
use sia_prime.Types.Network.{Network, standard, add64, sub64, mul64}
use sia_prime.Types.Ids.{
  Crypto, specifier_siacoin_output, specifier_file_contract, specifier_siafund_output,
  specifier_storage_proof_output, transaction_id, siacoin_output_id, file_contract_id,
  siafund_output_id, sia_claim_output_id, storage_proof_output_id, merkle_leaves, header, header_id,
  block_id, miner_payout_id, unlock_hash,
}
use sia_prime.Types.Outcome.{
  TxnError, double_spend, file_contract_output_sum_violation, file_contract_window_end_violation,
  file_contract_window_start_violation, non_zero_claim_start, non_zero_revision,
  storage_proof_with_outputs, timelock_not_satisfied, transaction_too_large, zero_miner_fee,
  zero_output, zero_revision, entropy_key, frivolous_signature, invalid_pub_key_index,
  missing_signatures, premature_signature, public_key_overuse, sorted_unique_violation,
  unlock_hash_wrong_algorithm, whole_transaction_violation, invalid_signature, Outcome, ◌>>◌, each,
  then-none, none-then, each-none, none-each, each-All, then_iff,
}
use sia_prime.Consensus.Bolt.{Bolt, IsLawful, SameBucket}
use sia_prime.Consensus.Data.{
  DiffDirection, diff_apply, diff_revert, SiacoinOutputDiff, FileContractDiff, SiafundOutputDiff,
  DelayedSiacoinOutputDiff, SiafundPoolDiff, ProcessedBlock, Contracts, State,
}
use sia_prime.Consensus.Panic.{
  ◌>>=◌, pure, bind-some, is_some, none-some, loop, loop_down, try_loop, try_loop_down,
  try_loop_from, if-ap, if-==, ==-refl, if-if-==, if-if,
}
use sia_prime.Consensus.Database.{
  dev_addr, get_path, current_block_id, get_block_map, current_processed_block, add_block_map,
  push_path, pop_path, is_siacoin_output, get_siacoin_output, add_siacoin_output,
  remove_siacoin_output, get_file_contract, bucket_or_empty, add_file_contract,
  remove_file_contract, get_siafund_output, add_siafund_output, remove_siafund_output,
  DelayedOutputs, add_dsco, remove_dsco, create_dsco_bucket, delete_dsco_bucket,
}
use sia_prime.Consensus.Diffs.{
  same_direction, commit_siacoin_output_diff, commit_file_contract_diff, commit_siafund_output_diff,
  commit_delayed_siacoin_output_diff, commit_siafund_pool_diff, create_upcoming_delayed_output_maps,
  delete_obsolete_delayed_output_maps, commit_each, try_commit_each, commit_node_diffs,
  update_current_path, with_delayed, commit_diff_set,
}
use sia_prime.Consensus.Apply.{
  or_zero_siacoin_output, or_zero_siafund_output, or_zero_file_contract, Work, Rules,
  push_siacoin_output_diff, push_file_contract_diff, push_siafund_output_diff, push_delayed_diff,
  push_siafund_pool_diff, revised_contract, claim_portion, apply_siacoin_input,
  apply_siacoin_inputs, apply_siacoin_output, apply_siacoin_outputs, apply_file_contract,
  apply_file_contracts, apply_file_contract_revision, apply_file_contract_revisions,
  apply_proof_output, apply_storage_proof, apply_storage_proofs, apply_siafund_input,
  apply_siafund_inputs, apply_siafund_output, apply_siafund_outputs, apply_transaction,
}
use sia_prime.Consensus.Validity.{
  ConsensusError, altered_revision_payouts, invalid_storage_proof, late_revision,
  low_revision_number, missing_siacoin_output, nil_item, siacoin_input_output_mismatch,
  siafund_input_output_mismatch, unfinished_file_contract, unrecognized_file_contract_id,
  wrong_unlock_conditions, standalone, Failure, calculate_leaves, add_siafund_outputs,
  standalone_failure, input_sum, valid_siacoins, storage_proof_segment, segment_length,
  valid_storage_proof, valid_storage_proofs, valid_file_contract_revision,
  valid_file_contract_revisions, siafund_input_sum, valid_siafunds, valid_transaction,
}
use sia_prime.Consensus.Generate.{
  SiafundFork, genesis_siafund_diff, forked_siafund_diff, validate_and_apply, finish_block,
  create_maturity_bucket, fix_siafund_allocation, maybe_fix_siafund_allocation, complete_block,
  complete_if_valid, generate_and_apply_diff,
}

-- A block that is not valid: its id goes to the blocks to be refused, and the error is returned.
pub record InvalidBlock : Type 0 where
  pub dos_block : Hash
  pub reason : ConsensusError

module _ {db : Bolt} where
  -- A height that the path does not have reads as the zero id.
  unfoldable pub path_id : BlockHeight → State db → Hash
  path_id height s = elim (get_path db height s) [ none ↦ 0 | some id ↦ id ]

  unfoldable pub is_on_path : Rules → State db → ProcessedBlock → Bool
  is_on_path rules s pb = path_id pb.height s == block_id rules.crypto pb.block

  -- The loop, with the rounds left and the blocks so far, the earliest first.
  unfoldable pub backtrack :
      Rules → State db → ℕ → ProcessedBlock → List ProcessedBlock → Option (List ProcessedBlock)
  backtrack rules s zero pb path = none
  backtrack rules s (suc rounds) pb path = elim (is_on_path rules s pb) [
    | true ↦ some path
    | false ↦ get_block_map db pb.block.parent_id s >>= λ parent.
        backtrack rules s rounds parent (parent ∷ path)
  ]

  -- A block has as many blocks before it as its height says.
  unfoldable pub backtrack_to_current_path :
      Rules → State db → ProcessedBlock → Option (List ProcessedBlock)
  backtrack_to_current_path rules s pb = backtrack rules s (pb.height + 1) pb (pb ∷ [])

  -- Given the id of the block that is to be the current one: the blocks in the order in which they are
  -- reverted.
  unfoldable pub revert_loop : Rules → ℕ → Hash → State db → Option (List ProcessedBlock × State db)
  revert_loop rules zero id s = none
  revert_loop rules (suc rounds) id s = elim (current_block_id db s == id) [
    | true ↦ some ([], s)
    | false ↦ current_processed_block db s >>= λ pb.
        commit_diff_set db rules.network false (block_id rules.crypto pb.block) pb s >>= λ s'.
        revert_loop rules rounds id s' >>= λ (reverted, s''). some (pb ∷ reverted, s'')
  ]

  -- No more rounds than the path has blocks.
  unfoldable pub revert_to_block :
      Rules → ProcessedBlock → State db → Option (List ProcessedBlock × State db)
  revert_to_block rules pb s =
      revert_loop rules (s.block_height + 1) (block_id rules.crypto pb.block) s

  -- A block with its diffs, and the state that it is applied to, by a first application.
  abbrev pub first_applied : ConsensusError ⊎ Work db → ConsensusError ⊎ ProcessedBlock × State db
  first_applied (inl e) = inl e
  first_applied (inr w) = inr (w.pb, w.tx)

  -- A block is put before those applied after it.
  abbrev pub with_applied :
      ProcessedBlock
      → InvalidBlock ⊎ List ProcessedBlock × State db
      → InvalidBlock ⊎ List ProcessedBlock × State db
  with_applied pb (inl invalid) = inl invalid
  with_applied pb (inr (applied, s)) = inr (pb ∷ applied, s)

  -- The diffs are known already.
  unfoldable pub apply_known_block :
      Rules → ProcessedBlock → State db → Option (ConsensusError ⊎ ProcessedBlock × State db)
  apply_known_block rules pb s =
      commit_diff_set db rules.network true (block_id rules.crypto pb.block) pb s >>= λ s'.
      some (first_applied (inr (record { pb = pb; tx = s' })))

  unfoldable pub apply_new_block :
      Rules
      → SiafundFork
      → (BlockHeight → Transaction → Outcome)
      → ProcessedBlock
      → State db
      → Option (ConsensusError ⊎ ProcessedBlock × State db)
  apply_new_block rules fork valid_signatures pb s =
      generate_and_apply_diff rules fork valid_signatures (record { pb = pb; tx = s }) >>= λ r.
      some (first_applied r)

  -- One turn of the loop: the block with its diffs, and the state.
  unfoldable pub apply_block :
      Rules
      → SiafundFork
      → (BlockHeight → Transaction → Outcome)
      → ProcessedBlock
      → State db
      → Option (ConsensusError ⊎ ProcessedBlock × State db)
  apply_block rules fork valid_signatures pb s =
      if pb.diffs_generated
      then apply_known_block rules pb s
      else apply_new_block rules fork valid_signatures pb s

  unfoldable pub apply_blocks :
      Rules
      → SiafundFork
      → (BlockHeight → Transaction → Outcome)
      → List ProcessedBlock
      → State db
      → Option (InvalidBlock ⊎ List ProcessedBlock × State db)
  apply_blocks rules fork valid_signatures [] s = some (inr ([], s))
  apply_blocks rules fork valid_signatures (pb ∷ pbs) s =
      apply_block rules fork valid_signatures pb s >>= λ r. elim r [
        | inl e ↦ some (inl (record { dos_block = block_id rules.crypto pb.block; reason = e }))
        | inr (pb', s') ↦
            apply_blocks rules fork valid_signatures pbs s' >>= λ r'. some (with_applied pb' r')
      ]

  -- The first block is on the path already.
  unfoldable pub apply_until_block :
      Rules
      → SiafundFork
      → (BlockHeight → Transaction → Outcome)
      → ProcessedBlock
      → State db
      → Option (InvalidBlock ⊎ List ProcessedBlock × State db)
  apply_until_block rules fork valid_signatures pb s =
      backtrack_to_current_path rules s pb >>= λ path.
      apply_blocks rules fork valid_signatures (drop 1 path) s

  -- The blocks that were reverted, with what was applied after them.
  abbrev pub with_reverted :
      List ProcessedBlock
      → InvalidBlock ⊎ List ProcessedBlock × State db
      → InvalidBlock ⊎ List ProcessedBlock × (List ProcessedBlock × State db)
  with_reverted reverted (inl invalid) = inl invalid
  with_reverted reverted (inr (applied, s)) = inr (reverted, (applied, s))

  -- The blocks that were reverted, those that were applied, and the state after both.
  unfoldable pub fork_blockchain :
      Rules
      → SiafundFork
      → (BlockHeight → Transaction → Outcome)
      → ProcessedBlock
      → State db
      → Option (InvalidBlock ⊎ List ProcessedBlock × (List ProcessedBlock × State db))
  fork_blockchain rules fork valid_signatures pb s =
      backtrack_to_current_path rules s pb >>= λ path. get_elem? path 0 >>= λ parent.
      revert_to_block rules parent s >>= λ (reverted, s').
      apply_until_block rules fork valid_signatures pb s' >>= λ r. some (with_reverted reverted r)
