-- ===== src/Consensus/Tests.antt =====
-- Runs of the consensus set at concrete values, and the theorems applied to them.
pub mod Values
mod Blocks
mod Targets
mod Forks
mod Log
use sia_prime.Consensus.Tests.Values.*
use sia_prime.Prelude.{
  ltb, leb, ◌==◌, if◌then◌else◌, leb→le, ltb→lt, ==→eq, ==→ne, eq→==, Bool-cases, Option-cases,
  length, get_elem?, take, drop, replicate, All, sum_of, length-append, take-length_append,
  drop-length_append, sum_of-append, drop-append, All-append, ℕ, zero, suc, ◌+◌, ◌-◌, ◌*◌, ◌/◌, ◌%◌,
  ◌^◌, ◌≤◌, ◌<◌, inr-injective, ◌≡◌, refl, sym, ap, ◌∙◌, subst, ◌≢◌, ◌↔◌, ◌⊎◌, inl, inr, Bool, true,
  false, not, ◌&&◌, ◌||◌, Option, none, some, some-injective, List, [], ◌∷◌, ◌++◌, map, append-nil,
  append_assoc, arith,
}
use sia_prime.Types.Data.{
  Currency, Hash, BlockHeight, SiaPublicKey, UnlockConditions, SiacoinInput, SiacoinOutput,
  SiafundInput, SiafundOutput, FileContract, FileContractRevision, StorageProof, CoveredFields,
  TransactionSignature, Transaction, Block, BlockHeader,
}
use sia_prime.Types.Network.{Network, standard, add64, sub64, mul64}
use sia_prime.Types.Currency.{
  add, sub, mul, div, equals, is_zero, round_down, mul_rat, mul_tax, to_uint64, siafund_count,
  siafund_count-pos, tax_float_num, tax_float_den, tax_float_den-pos, mul_float_tax, tax, post_tax,
}
use sia_prime.Types.Ids.{
  Crypto, specifier_siacoin_output, specifier_file_contract, specifier_siafund_output,
  specifier_storage_proof_output, transaction_id, siacoin_output_id, file_contract_id,
  siafund_output_id, sia_claim_output_id, storage_proof_output_id, merkle_leaves, header, header_id,
  block_id, miner_payout_id, unlock_hash,
}
use sia_prime.Types.Validity.{
  add_outputs, correct_file_contract, correct_file_contracts, correct_file_contract_revision,
  correct_file_contract_revisions, block_size_limit, oak_hardfork_txn_size_limit, fits_in_a_block,
  check_siacoin_output, check_payout, check_siafund_output, check_miner_fee, follows_minimum_values,
  follows_storage_proof_rules, exists_in, enter_ids, fail_on_repeat, enter_more, no_repeats,
  valid_unlock_conditions, all_unlock_conditions, standalone_valid,
}
use sia_prime.Types.Sums.{siacoin_output_sum, siacoin_output_sum_lem}
use sia_prime.Consensus.Bolt.AssocList.{assoc_list, assoc_list-IsLawful}
use sia_prime.Consensus.Data.{
  DiffDirection, diff_apply, diff_revert, SiacoinOutputDiff, FileContractDiff, SiafundOutputDiff,
  DelayedSiacoinOutputDiff, SiafundPoolDiff, ProcessedBlock, Contracts, State,
}
use sia_prime.Consensus.Panic.{
  ◌>>=◌, pure, bind-some, is_some, none-some, loop, loop_down, try_loop, try_loop_down,
  try_loop_from, if-ap, if-==, ==-refl, if-if-==, if-if,
}
use sia_prime.Consensus.Database.{
  dev_addr, get_path, current_block_id, get_block_map, current_processed_block, add_block_map,
  push_path, pop_path, is_siacoin_output, get_siacoin_output, add_siacoin_output,
  remove_siacoin_output, get_file_contract, bucket_or_empty, add_file_contract,
  remove_file_contract, get_siafund_output, add_siafund_output, remove_siafund_output,
  DelayedOutputs, add_dsco, remove_dsco, create_dsco_bucket, delete_dsco_bucket,
}
use sia_prime.Consensus.Diffs.{
  same_direction, commit_siacoin_output_diff, commit_file_contract_diff, commit_siafund_output_diff,
  commit_delayed_siacoin_output_diff, commit_siafund_pool_diff, create_upcoming_delayed_output_maps,
  delete_obsolete_delayed_output_maps, commit_each, try_commit_each, commit_node_diffs,
  update_current_path, with_delayed, commit_diff_set,
}
use sia_prime.Consensus.Diffs.Buckets.{
  undo-put, undo-delete, undo-entry, FitAll, TryFitAll, undo_all, try_undo_all, run_all,
}
use sia_prime.Consensus.Diffs.Delayed.{
  exists_at, delayed_at, SameDelayed, FitsDelayed, exists-put, delayed-put, exists-delete,
  delayed-delete, exists-create, delayed-create,
}
use sia_prime.Consensus.Diffs.Same.{
  SameState, FitsSiacoins, FitsSiafunds, FitsPool, prepared, FitsBlock, commit_block, FitsNext,
}
use sia_prime.Consensus.Diffs.Restore.{
  SameState-undo, commit_diff_set-restores, commit_blocks-restore,
}
use sia_prime.Consensus.Apply.{
  or_zero_siacoin_output, or_zero_siafund_output, or_zero_file_contract, Work, Rules,
  push_siacoin_output_diff, push_file_contract_diff, push_siafund_output_diff, push_delayed_diff,
  push_siafund_pool_diff, revised_contract, claim_portion, apply_siacoin_input,
  apply_siacoin_inputs, apply_siacoin_output, apply_siacoin_outputs, apply_file_contract,
  apply_file_contracts, apply_file_contract_revision, apply_file_contract_revisions,
  apply_proof_output, apply_storage_proof, apply_storage_proofs, apply_siafund_input,
  apply_siafund_inputs, apply_siafund_output, apply_siafund_outputs, apply_transaction,
}
use sia_prime.Consensus.Apply.Replay.{
  apply_transaction-Keeps, no_diffs-Replays, apply_transaction-replays,
}
use sia_prime.Consensus.Blocks.{
  BlockError, early_timestamp, nonce_requirements, block_unsolved, large_block,
  extreme_future_timestamp, bad_miner_payouts, future_timestamp, sum_payouts,
  check_miner_payouts_without_dev_fund, subsidy_unlock_hash, check_split,
  check_miner_payouts_with_dev_fund, check_miner_payouts, check_target, validate_block,
}
use sia_prime.Consensus.Blocks.Laws.{check_miner_payouts-subsidy, validate_block_iff}
use sia_prime.Types.Marshal.Encode.{
  write_hash, write_specifier, write_prefix, write_slice, marshal_public_key,
  marshal_unlock_conditions, marshal_siacoin_input, marshal_siacoin_output, marshal_siafund_input,
  marshal_siafund_output, marshal_file_contract, marshal_file_contract_revision,
  marshal_storage_proof, write_bool, marshal_covered_fields, marshal_transaction_signature,
  marshal_no_signatures, marshal_transaction, marshal_block,
}
use sia_prime.Types.Subsidy.{
  initial_coinbase, siacoin_precision, dev_fund_enabled, dev_fund_initial_block_height,
  dev_fund_decay_start, dev_fund_decay_end, dev_fund_initial_percentage, dev_fund_final_percentage,
  airdrop_coins, coinbase_base, calculate_coinbase, dev_fund_decay_percentage, dev_fund_percentage,
  ten_thousand-pos, calculate_dev_subsidy, add_fees, add_miner_fees, calculate_miner_fees,
  calculate_subsidy, calculate_subsidies, two-pos, calculate_num_siacoins,
}
use sia_prime.Consensus.Validity.{
  ConsensusError, altered_revision_payouts, invalid_storage_proof, late_revision,
  low_revision_number, missing_siacoin_output, nil_item, siacoin_input_output_mismatch,
  siafund_input_output_mismatch, unfinished_file_contract, unrecognized_file_contract_id,
  wrong_unlock_conditions, standalone, Failure, calculate_leaves, add_siafund_outputs,
  standalone_failure, input_sum, valid_siacoins, storage_proof_segment, segment_length,
  valid_storage_proof, valid_storage_proofs, valid_file_contract_revision,
  valid_file_contract_revisions, siafund_input_sum, valid_siafunds, valid_transaction,
}
use sia_prime.Consensus.Validity.Siacoins.{SpendsOutput, spent_value, valid_siacoins_iff}
use sia_prime.Consensus.Validity.Siafunds.{SpendsSiafund, spent_siafunds, valid_siafunds_iff}
use sia_prime.Consensus.Validity.Revisions.{RevisesContract, valid_revisions_iff}

abbrev matured : DelayedSiacoinOutputDiff
matured = record { direction = diff_revert; id = 9; siacoin_output = output; maturity_height = 5 }

-- It spends the output 1 and matures the output 9, makes a contract and pays a miner.
abbrev pub next_block : ProcessedBlock
next_block = record empty_block {
  siacoin_output_diffs =
      record { direction = diff_revert; id = 1; siacoin_output = output }
      ∷ record { direction = diff_apply; id = 9; siacoin_output = output }
      ∷ [];
  file_contract_diffs = record { direction = diff_apply; id = 3; file_contract = contract } ∷ [];
  delayed_siacoin_output_diffs =
      record { direction = diff_apply; id = 11; siacoin_output = output; maturity_height = 7 }
      ∷ matured
      ∷ [];
  siafund_pool_diffs = record { direction = diff_apply; previous = 7; adjusted = 30007 } ∷ [];
}

pub next_block-FitsBlock : FitsBlock assoc_list network next_block before
unfolding commit_siacoin_output_diff add_siacoin_output remove_siacoin_output
    commit_siafund_pool_diff bucket_or_empty create_dsco_bucket commit_delayed_siacoin_output_diff
    add_dsco remove_dsco
next_block-FitsBlock = record {
  height_bound = omega arith;
  path_free = refl;
  siacoins_fit = (refl, (refl, tt));
  contracts_fit = ((refl, refl), λ s' run. tt);
  siafunds_fit = tt;
  pool_fits = (refl, tt);
  maturity_free = refl;
  delayed_fit = (
    (refl, refl),
    λ d run.
        subst
          (TryFitAll (commit_delayed_siacoin_output_diff assoc_list) (FitsDelayed assoc_list)
            (matured ∷ []))
          (some-injective _ _ run) ((refl, refl), λ d' run'. tt),
  );
  all_matured = λ e d run.
      subst
        (λ d. (exists_at assoc_list 5 d ≡ true) × ((i : Hash) → delayed_at assoc_list 5 i d ≡ none))
        (some-injective _ _ run) (refl, λ i. refl);
}

commit_diff_set-restores_example :
    (s1 : State assoc_list) × (commit_diff_set assoc_list network true 50 next_block before
      ≡ some s1)
    × ((s2 : State assoc_list) × (commit_diff_set assoc_list network false 50 next_block s1
          ≡ some s2)
        × SameState assoc_list s2 before)
commit_diff_set-restores_example =
    commit_diff_set-restores assoc_list assoc_list-IsLawful network 50 next_block before
      next_block-FitsBlock

abbrev forming : Transaction
forming = record payment {
  siacoin_inputs = [];
  siacoin_outputs = [];
  file_contracts = contract ∷ [];
}

abbrev start_work : Work assoc_list
start_work = record { pb = empty_block; tx = before }

abbrev or_start : Option (Work assoc_list) → Work assoc_list
or_start none = start_work
or_start (some w) = w

abbrev after : Work assoc_list
after = or_start (try_loop (apply_transaction rules) (payment ∷ forming ∷ []) start_work)

after-runs : try_loop (apply_transaction rules) (payment ∷ forming ∷ []) start_work ≡ some after
unfolding apply_transaction apply_siacoin_inputs apply_siacoin_input apply_siacoin_outputs
    apply_siacoin_output apply_file_contracts apply_file_contract apply_file_contract_revisions
    apply_storage_proofs apply_siafund_inputs apply_siafund_outputs push_siacoin_output_diff
    push_file_contract_diff push_siafund_pool_diff commit_file_contract_diff
after-runs = refl

apply_transaction-replays_example :
    commit_node_diffs assoc_list true after.pb before ≡ some after.tx
apply_transaction-replays_example =
    apply_transaction-replays before rules (payment ∷ forming ∷ []) empty_block after refl refl refl
      refl refl after-runs

valid_siacoins-run : valid_siacoins assoc_list rules before payment ≡ none
unfolding valid_siacoins input_sum unlock_hash siacoin_output_sum add add_fees add_outputs
valid_siacoins-run = refl

valid_siacoins_iff_example : (valid_siacoins assoc_list rules before payment ≡ none) ↔ (
    All (SpendsOutput assoc_list rules before.siacoin_outputs) payment.siacoin_inputs
    × (sum_of (spent_value assoc_list rules before.siacoin_outputs) payment.siacoin_inputs
        ≡ sum_of SiacoinOutput.value payment.siacoin_outputs
          + sum_of FileContract.payout payment.file_contracts
          + sum_of (λ fee. fee) payment.miner_fees))
valid_siacoins_iff_example = valid_siacoins_iff assoc_list rules before payment

-- A contract that window and bucket know, and a siafund output.
abbrev stocked : State assoc_list
stocked = record before {
  contracts = record { file_contracts = (8, contract) ∷ []; expirations = (20, (8, tt) ∷ []) ∷ [] };
  siafund_outputs = (2, record { value = 100; unlock_hash = 7; claim_start = 0 }) ∷ [];
}

abbrev revision : FileContractRevision
revision = record {
  parent_id = 8;
  unlock_conditions = record { timelock = 0; public_keys = []; signatures_required = 0 };
  new_revision_number = 1;
  new_file_size = 128;
  new_file_merkle_root = 6;
  new_window_start = 10;
  new_window_end = 20;
  new_valid_proof_outputs = record { value = 970000; unlock_hash = 7 } ∷ [];
  new_missed_proof_outputs = record { value = 970000; unlock_hash = 8 } ∷ [];
  new_unlock_hash = 9;
}

abbrev mixed : Transaction
mixed = record payment {
  file_contract_revisions = revision ∷ [];
  siafund_inputs =
      record {
        parent_id = 2;
        unlock_conditions = record { timelock = 0; public_keys = []; signatures_required = 0 };
        claim_unlock_hash = 4;
      }
      ∷ [];
  siafund_outputs =
      record { value = 60; unlock_hash = 3; claim_start = 0 }
      ∷ record { value = 40; unlock_hash = 5; claim_start = 0 }
      ∷ [];
}

valid_siafunds-run : valid_siafunds assoc_list rules stocked mixed ≡ none
unfolding valid_siafunds siafund_input_sum get_siafund_output unlock_hash add_siafund_outputs add
valid_siafunds-run = refl

valid_siafunds_iff_example : (valid_siafunds assoc_list rules stocked mixed ≡ none) ↔ (
    All (SpendsSiafund assoc_list rules stocked) mixed.siafund_inputs
    × (sum_of (spent_siafunds assoc_list rules stocked) mixed.siafund_inputs
        ≡ sum_of SiafundOutput.value mixed.siafund_outputs))
valid_siafunds_iff_example = valid_siafunds_iff assoc_list rules stocked mixed

valid_revisions_iff_example :
    (valid_file_contract_revisions assoc_list rules stocked mixed ≡ none)
    ↔ All (RevisesContract assoc_list rules stocked) mixed.file_contract_revisions
valid_revisions_iff_example = valid_revisions_iff assoc_list rules stocked mixed

-- The block at height 1 pays 299,999 coins, a fifth of it to the dev fund.
abbrev first_block : Block
first_block = record {
  parent_id = 4;
  nonce = 0;
  timestamp = 100;
  miner_payouts =
      record { value = 2399992 * 10 ^ 23; unlock_hash = 7 }
      ∷ record {
        value = 599998 * 10 ^ 23;
        unlock_hash = 79151290361637621671575465041847278816810685005284771283617709046632099417721;
      }
      ∷ [];
  transactions = [];
}

first_block-pays : check_miner_payouts standard first_block 1 ≡ true
unfolding check_miner_payouts check_miner_payouts_with_dev_fund sum_payouts is_zero check_split
    equals calculate_subsidies calculate_dev_subsidy calculate_miner_fees add_miner_fees
    calculate_coinbase coinbase_base dev_fund_percentage add sub subsidy_unlock_hash
first_block-pays = refl

check_miner_payouts-subsidy_example :
    sum_of SiacoinOutput.value first_block.miner_payouts ≡ calculate_subsidy standard first_block 1
check_miner_payouts-subsidy_example =
    check_miner_payouts-subsidy standard first_block 1 (omega arith) first_block-pays

validate_block_iff_example : (validate_block standard 90 first_block 5 80 1000 1 ≡ none) ↔ (
    (80 ≤ 100)
    × (5 ≤ 1000)
    × (length (marshal_block first_block) ≤ 2000000)
    × (100 ≤ add64 90 18000)
    × (check_miner_payouts standard first_block 1 ≡ true)
    × (100 ≤ add64 90 10800))
validate_block_iff_example = validate_block_iff standard 90 first_block 5 80 1000 1

-- A block without diffs follows; the bucket of its height is there, and empty.
abbrev second_block : ProcessedBlock
second_block = record empty_block { height = 6 }

abbrev or_before : Option (State assoc_list) → State assoc_list
or_before none = before
or_before (some s) = s

abbrev after_next : State assoc_list
after_next = or_before (commit_diff_set assoc_list network true 50 next_block before)

after_next-runs : commit_diff_set assoc_list network true 50 next_block before ≡ some after_next
unfolding commit_diff_set commit_node_diffs update_current_path push_path
    create_upcoming_delayed_output_maps delete_obsolete_delayed_output_maps create_dsco_bucket
    delete_dsco_bucket commit_delayed_siacoin_output_diff add_dsco remove_dsco
    commit_file_contract_diff
after_next-runs = refl

second_block-FitsBlock : FitsBlock assoc_list network second_block after_next
unfolding commit_diff_set commit_node_diffs update_current_path push_path
    create_upcoming_delayed_output_maps delete_obsolete_delayed_output_maps create_dsco_bucket
    delete_dsco_bucket commit_delayed_siacoin_output_diff add_dsco remove_dsco
    commit_file_contract_diff bucket_or_empty
second_block-FitsBlock = record {
  height_bound = omega arith;
  path_free = refl;
  siacoins_fit = tt;
  contracts_fit = tt;
  siafunds_fit = tt;
  pool_fits = tt;
  maturity_free = refl;
  delayed_fit = tt;
  all_matured = λ e d run.
      subst
        (λ d. (exists_at assoc_list 6 d ≡ true) × ((i : Hash) → delayed_at assoc_list 6 i d ≡ none))
        (some-injective _ _ run) (refl, λ i. refl);
}

abbrev chain : List (Hash × ProcessedBlock)
chain = (50, next_block) ∷ (60, second_block) ∷ []

chain-fits : TryFitAll (commit_block assoc_list network) (FitsNext assoc_list network) chain before
chain-fits = (
  next_block-FitsBlock,
  λ s run.
      subst
        (TryFitAll (commit_block assoc_list network) (FitsNext assoc_list network)
          ((60, second_block) ∷ []))
        (some-injective _ _ (sym after_next-runs ∙ run)) (second_block-FitsBlock, λ s' run'. tt),
)

commit_blocks-restore_example :
    (s1 : State assoc_list) × (try_loop (commit_block assoc_list network true) chain before
      ≡ some s1)
    × ((s2 : State assoc_list) × (try_loop_down (commit_block assoc_list network false) chain s1
          ≡ some s2)
        × SameState assoc_list s2 before)
commit_blocks-restore_example =
    commit_blocks-restore assoc_list assoc_list-IsLawful network chain before chain-fits
