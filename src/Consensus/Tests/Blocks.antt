-- ===== src/Consensus/Tests/Blocks.antt =====
-- Runs of `generateAndApplyDiff` and of modules/consensus/maintenance.go.
use sia_prime.Prelude.{◌==◌, ◌≡◌, refl, ◌⊎◌, inl, inr, true, false, Option, none, some, [], ◌∷◌}
use sia_prime.Types.Data.{Hash, BlockHeight}
use sia_prime.Types.Ids.{siafund_output_id, block_id}
use sia_prime.Consensus.Bolt.AssocList.{assoc_list, assoc_list-IsLawful}
use sia_prime.Consensus.Data.{ProcessedBlock, State}
use sia_prime.Consensus.Database.{
  pop_path, get_file_contract, remove_file_contract, add_dsco, remove_dsco, create_dsco_bucket,
  delete_dsco_bucket,
}
use sia_prime.Consensus.Diffs.{
  commit_file_contract_diff, commit_delayed_siacoin_output_diff,
  create_upcoming_delayed_output_maps, delete_obsolete_delayed_output_maps, commit_node_diffs,
  update_current_path, commit_diff_set,
}
use sia_prime.Consensus.Apply.{
  Work, push_siacoin_output_diff, push_file_contract_diff, push_siafund_output_diff,
  push_delayed_diff,
}
use sia_prime.Consensus.Maintenance.{
  maturing_diff, matured_diff, missed_proof_diffs, mature_outputs, apply_miner_payout,
  apply_miner_payouts, apply_matured_siacoin_outputs, apply_missed_storage_proof,
  missed_storage_proofs, expire_contracts, apply_file_contract_maintenance, apply_maintenance,
}
use sia_prime.Consensus.Maintenance.Maturing.{
  entry_of, or_else, Elsewhere, apply_matured_siacoin_outputs-move,
}
use sia_prime.Consensus.Validity.{ConsensusError}
use sia_prime.Consensus.Generate.{
  SiafundFork, validate_and_apply, finish_block, create_maturity_bucket, fix_siafund_allocation,
  maybe_fix_siafund_allocation, complete_block, complete_if_valid, generate_and_apply_diff,
}
use sia_prime.Consensus.Generate.Replay.{AgreesWithReplay, generate_and_apply_diff-replays}
use sia_prime.Consensus.Generate.Siafunds.{revert-siafund_fork}
use sia_prime.Consensus.Tests.Values.{
  network, output, contract, before, empty_block, rules, payment,
}

-- At height 4: a contract expires in the next block, and an output matures in it.
abbrev waiting : State assoc_list
waiting = record before {
  contracts = record {
    file_contracts = (8, record contract { window_end = 5 }) ∷ [];
    expirations = (5, (8, tt) ∷ []) ∷ [];
  };
}

abbrev mined : ProcessedBlock
mined = record empty_block {
  block = record {
    parent_id = 40;
    nonce = 0;
    timestamp = 0;
    miner_payouts = output ∷ [];
    transactions = [];
  };
}

abbrev fork : SiafundFork
fork = record {
  genesis_siafunds = record payment {
    siafund_outputs = record { value = 2000; unlock_hash = 5; claim_start = 0 } ∷ [];
  };
  forked_allocation = record { value = 3000; unlock_hash = 6; claim_start = 0 } ∷ [];
}

abbrev no_work : Work assoc_list
no_work = record { pb = mined; tx = waiting }

abbrev work_of : Option (ConsensusError ⊎ Work assoc_list) → Work assoc_list
work_of none = no_work
work_of (some (inl e)) = no_work
work_of (some (inr w)) = w

abbrev generated : Work assoc_list
generated = work_of (generate_and_apply_diff rules fork (λ h t. none) no_work)

generated-runs : generate_and_apply_diff rules fork (λ h t. none) no_work ≡ some (inr generated)
unfolding generate_and_apply_diff validate_and_apply create_maturity_bucket create_dsco_bucket
    complete_if_valid complete_block finish_block apply_maintenance apply_miner_payouts
    apply_miner_payout push_delayed_diff commit_delayed_siacoin_output_diff add_dsco remove_dsco
    apply_matured_siacoin_outputs mature_outputs push_siacoin_output_diff maturing_diff matured_diff
    apply_file_contract_maintenance expire_contracts missed_storage_proofs
    apply_missed_storage_proof missed_proof_diffs get_file_contract push_file_contract_diff
    commit_file_contract_diff remove_file_contract delete_dsco_bucket maybe_fix_siafund_allocation
generated-runs = refl

generate_and_apply_diff-replays_example :
    (replayed : State assoc_list) × (commit_diff_set assoc_list network true
        (block_id rules.crypto mined.block)
        generated.pb
        waiting
      ≡ some replayed)
    × AgreesWithReplay (block_id rules.crypto mined.block) generated.pb replayed generated.tx
generate_and_apply_diff-replays_example =
    generate_and_apply_diff-replays assoc_list-IsLawful rules fork (λ h t. none) mined waiting
      generated refl refl refl refl refl refl generated-runs

apply_matured_siacoin_outputs-move_example :
    (w' : Work assoc_list) × (apply_matured_siacoin_outputs rules no_work ≡ some w')
    × ((id : Hash)
        → assoc_list.get id w'.tx.siacoin_outputs
          ≡ or_else (entry_of id ((9, output) ∷ [])) (assoc_list.get id waiting.siacoin_outputs))
    × (assoc_list.get 5 w'.tx.delayed_outputs ≡ none)
    × ((k : BlockHeight)
        → (k == 5) ≡ false
        → assoc_list.get k w'.tx.delayed_outputs ≡ assoc_list.get k waiting.delayed_outputs)
    × Elsewhere w'.tx waiting
apply_matured_siacoin_outputs-move_example =
    apply_matured_siacoin_outputs-move assoc_list-IsLawful rules no_work ((9, output) ∷ []) refl
      refl (refl, tt)

-- The siafunds change in a block, which is reverted from the state that it leaves.
abbrev or_no_work : Option (Work assoc_list) → Work assoc_list
or_no_work none = no_work
or_no_work (some w) = w

abbrev forked : Work assoc_list
forked = or_no_work (fix_siafund_allocation rules fork no_work)

forked-runs : fix_siafund_allocation rules fork no_work ≡ some forked
unfolding fix_siafund_allocation push_siafund_output_diff
forked-runs = refl

abbrev or_waiting : Option (State assoc_list) → State assoc_list
or_waiting none = waiting
or_waiting (some s) = s

abbrev reverted : State assoc_list
reverted = or_waiting (commit_diff_set assoc_list network false 50 forked.pb forked.tx)

reverted-runs : commit_diff_set assoc_list network false 50 forked.pb forked.tx ≡ some reverted
unfolding commit_diff_set commit_node_diffs update_current_path pop_path
    create_upcoming_delayed_output_maps delete_obsolete_delayed_output_maps create_dsco_bucket
    delete_dsco_bucket fix_siafund_allocation push_siafund_output_diff
reverted-runs = refl

revert-siafund_fork_example :
    assoc_list.get (siafund_output_id rules.crypto fork.genesis_siafunds 0) reverted.siafund_outputs
    ≡ some (record { value = 0; unlock_hash = 5; claim_start = 0 })
revert-siafund_fork_example =
    revert-siafund_fork assoc_list-IsLawful rules fork
      (record { value = 2000; unlock_hash = 5; claim_start = 0 }) [] no_work forked 50 forked.tx
      reverted refl tt forked-runs reverted-runs
