-- ===== src/Consensus/Generate.antt =====
-- `generateAndApplyDiff` of modules/consensus/diffs.go: a block is verified and applied, transaction
-- by transaction, and its diffs are recorded.
pub mod Agreement
pub mod Steps
pub mod Replay
pub mod Siafunds
use sia_prime.Prelude.{
  ltb, leb, ◌==◌, if◌then◌else◌, leb→le, ltb→lt, ==→eq, ==→ne, eq→==, Bool-cases, Option-cases,
  length, get_elem?, take, drop, replicate, All, sum_of, length-append, take-length_append,
  drop-length_append, sum_of-append, drop-append, All-append, All-map, ℕ, zero, suc, ◌+◌, ◌-◌, ◌*◌,
  ◌/◌, ◌%◌, ◌^◌, ◌≤◌, ◌<◌, inr-injective, ◌≡◌, refl, sym, ap, ◌∙◌, subst, ◌≢◌, ◌↔◌, ◌⊎◌, inl, inr,
  Bool, true, false, not, ◌&&◌, ◌||◌, Option, none, some, some-injective, List, [], ◌∷◌, ◌++◌, map,
  append-nil, append_assoc, arith,
}
use sia_prime.Types.Data.{
  Currency, Hash, BlockHeight, SiaPublicKey, UnlockConditions, SiacoinInput, SiacoinOutput,
  SiafundInput, SiafundOutput, FileContract, FileContractRevision, StorageProof, CoveredFields,
  TransactionSignature, Transaction, Block, BlockHeader,
}
use sia_prime.Types.Network.{Network, standard, add64, sub64, mul64}
use sia_prime.Types.Ids.{
  Crypto, specifier_siacoin_output, specifier_file_contract, specifier_siafund_output,
  specifier_storage_proof_output, transaction_id, siacoin_output_id, file_contract_id,
  siafund_output_id, sia_claim_output_id, storage_proof_output_id, merkle_leaves, header, header_id,
  block_id, miner_payout_id, unlock_hash,
}
use sia_prime.Types.Outcome.{
  TxnError, double_spend, file_contract_output_sum_violation, file_contract_window_end_violation,
  file_contract_window_start_violation, non_zero_claim_start, non_zero_revision,
  storage_proof_with_outputs, timelock_not_satisfied, transaction_too_large, zero_miner_fee,
  zero_output, zero_revision, entropy_key, frivolous_signature, invalid_pub_key_index,
  missing_signatures, premature_signature, public_key_overuse, sorted_unique_violation,
  unlock_hash_wrong_algorithm, whole_transaction_violation, invalid_signature, Outcome, ◌>>◌, each,
  then-none, none-then, each-none, none-each, each-All, then_iff,
}
use sia_prime.Consensus.Bolt.{Bolt, IsLawful, SameBucket}
use sia_prime.Consensus.Data.{
  DiffDirection, diff_apply, diff_revert, SiacoinOutputDiff, FileContractDiff, SiafundOutputDiff,
  DelayedSiacoinOutputDiff, SiafundPoolDiff, ProcessedBlock, Contracts, State,
}
use sia_prime.Consensus.Panic.{
  ◌>>=◌, pure, bind-some, is_some, none-some, loop, loop_down, try_loop, try_loop_down,
  try_loop_from, if-ap, if-==, ==-refl, if-if-==, if-if,
}
use sia_prime.Consensus.Database.{
  dev_addr, get_path, current_block_id, get_block_map, current_processed_block, add_block_map,
  push_path, pop_path, is_siacoin_output, get_siacoin_output, add_siacoin_output,
  remove_siacoin_output, get_file_contract, bucket_or_empty, add_file_contract,
  remove_file_contract, get_siafund_output, add_siafund_output, remove_siafund_output,
  DelayedOutputs, add_dsco, remove_dsco, create_dsco_bucket, delete_dsco_bucket,
}
use sia_prime.Consensus.Diffs.{
  same_direction, commit_siacoin_output_diff, commit_file_contract_diff, commit_siafund_output_diff,
  commit_delayed_siacoin_output_diff, commit_siafund_pool_diff, create_upcoming_delayed_output_maps,
  delete_obsolete_delayed_output_maps, commit_each, try_commit_each, commit_node_diffs,
  update_current_path, with_delayed, commit_diff_set,
}
use sia_prime.Consensus.Apply.{
  or_zero_siacoin_output, or_zero_siafund_output, or_zero_file_contract, Work, Rules,
  push_siacoin_output_diff, push_file_contract_diff, push_siafund_output_diff, push_delayed_diff,
  push_siafund_pool_diff, revised_contract, claim_portion, apply_siacoin_input,
  apply_siacoin_inputs, apply_siacoin_output, apply_siacoin_outputs, apply_file_contract,
  apply_file_contracts, apply_file_contract_revision, apply_file_contract_revisions,
  apply_proof_output, apply_storage_proof, apply_storage_proofs, apply_siafund_input,
  apply_siafund_inputs, apply_siafund_output, apply_siafund_outputs, apply_transaction,
}
use sia_prime.Consensus.Maintenance.{
  maturing_diff, matured_diff, missed_proof_diffs, mature_outputs, matures, apply_miner_payout,
  apply_miner_payouts, apply_matured_siacoin_outputs, apply_missed_storage_proof,
  missed_storage_proofs, expire_contracts, apply_file_contract_maintenance, apply_maintenance,
}
use sia_prime.Consensus.Validity.{
  ConsensusError, altered_revision_payouts, invalid_storage_proof, late_revision,
  low_revision_number, missing_siacoin_output, nil_item, siacoin_input_output_mismatch,
  siafund_input_output_mismatch, unfinished_file_contract, unrecognized_file_contract_id,
  wrong_unlock_conditions, standalone, Failure, calculate_leaves, add_siafund_outputs,
  standalone_failure, input_sum, valid_siacoins, storage_proof_segment, segment_length,
  valid_storage_proof, valid_storage_proofs, valid_file_contract_revision,
  valid_file_contract_revisions, siafund_input_sum, valid_siafunds, valid_transaction,
}

-- `GenesisBlock.Transactions[1]` and `ForkedGenesisSiafundAllocation`, constants of the build.
pub record SiafundFork : Type 0 where
  pub genesis_siafunds : Transaction
  pub forked_allocation : List SiafundOutput

-- The diff that removes a genesis output records the value 0.
unfoldable pub genesis_siafund_diff : Rules → Transaction → ℕ → SiafundOutput → SiafundOutputDiff
genesis_siafund_diff rules t i sfo = record {
  direction = diff_revert;
  id = siafund_output_id rules.crypto t i;
  siafund_output = record { value = 0; unlock_hash = sfo.unlock_hash; claim_start = 0 };
}

-- An output of the new allocation has its address for an id.
unfoldable pub forked_siafund_diff : SiafundOutput → SiafundOutputDiff
forked_siafund_diff sfo = record {
  direction = diff_apply;
  id = sfo.unlock_hash;
  siafund_output = sfo;
}

module _ {db : Bolt} (rules : Rules) where
  -- Given what `validSignatures` returns. Each transaction is checked against what the ones before it
  -- leave; the first that is not valid gives the error.
  unfoldable pub validate_and_apply :
      (BlockHeight → Transaction → Outcome)
      → List Transaction
      → Work db
      → Option (ConsensusError ⊎ Work db)
  validate_and_apply valid_signatures [] w = some (inr w)
  validate_and_apply valid_signatures (t ∷ ts) w =
      elim (valid_transaction db rules valid_signatures w.tx t) [
        | some e ↦ some (inl e)
        | none ↦ apply_transaction rules t w >>= λ w'. validate_and_apply valid_signatures ts w'
      ]

  -- The block joins the path and the map.
  unfoldable pub finish_block : Work db → Work db
  finish_block w =
      let pb = record w.pb { diffs_generated = true } in
      let bid = block_id rules.crypto pb.block in
      record { pb = pb; tx = add_block_map db bid pb (update_current_path db true bid w.tx) }

  unfoldable pub create_maturity_bucket : Work db → Work db
  create_maturity_bucket w = record w {
    tx = with_delayed db (create_dsco_bucket db (matures rules w)) w.tx;
  }

module _ {db : Bolt} (rules : Rules) (fork : SiafundFork) where
  unfoldable pub fix_siafund_allocation : Work db → Option (Work db)
  fix_siafund_allocation w = do
    w1 ←
        try_loop_from 0
          (λ i sfo v.
            push_siafund_output_diff (genesis_siafund_diff rules fork.genesis_siafunds i sfo) v)
          fork.genesis_siafunds.siafund_outputs w
    try_loop (λ sfo v. push_siafund_output_diff (forked_siafund_diff sfo) v) fork.forked_allocation
        w1

  unfoldable pub maybe_fix_siafund_allocation : Work db → Option (Work db)
  maybe_fix_siafund_allocation w = if w.pb.height == 7200 then fix_siafund_allocation w else some w

  -- What follows the transactions.
  unfoldable pub complete_block : Work db → Option (Work db)
  complete_block w = do
    w1 ← apply_maintenance rules w
    w2 ← maybe_fix_siafund_allocation w1
    pure (finish_block rules w2)

  unfoldable pub complete_if_valid : ConsensusError ⊎ Work db → Option (ConsensusError ⊎ Work db)
  complete_if_valid (inl e) = some (inl e)
  complete_if_valid (inr w) = complete_block w >>= λ w'. some (inr w')

  unfoldable pub generate_and_apply_diff :
      (BlockHeight → Transaction → Outcome) → Work db → Option (ConsensusError ⊎ Work db)
  generate_and_apply_diff valid_signatures w = do
    r ←
        validate_and_apply rules valid_signatures w.pb.block.transactions
          (create_maturity_bucket rules w)
    complete_if_valid r
