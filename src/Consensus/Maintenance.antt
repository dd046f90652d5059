-- ===== src/Consensus/Maintenance.antt =====
-- modules/consensus/maintenance.go: what happens to every block after its transactions.
pub mod Maturing
use sia_prime.Prelude.{
  ltb, leb, ◌==◌, if◌then◌else◌, leb→le, ltb→lt, ==→eq, ==→ne, eq→==, Bool-cases, Option-cases,
  length, get_elem?, take, drop, replicate, All, sum_of, length-append, take-length_append,
  drop-length_append, sum_of-append, drop-append, All-append, ℕ, zero, suc, ◌+◌, ◌-◌, ◌*◌, ◌/◌, ◌%◌,
  ◌^◌, ◌≤◌, ◌<◌, inr-injective, ◌≡◌, refl, sym, ap, ◌∙◌, subst, ◌≢◌, ◌↔◌, ◌⊎◌, inl, inr, Bool, true,
  false, not, ◌&&◌, ◌||◌, Option, none, some, some-injective, List, [], ◌∷◌, ◌++◌, map, append-nil,
  append_assoc, arith,
}
use sia_prime.Types.Data.{
  Currency, Hash, BlockHeight, SiaPublicKey, UnlockConditions, SiacoinInput, SiacoinOutput,
  SiafundInput, SiafundOutput, FileContract, FileContractRevision, StorageProof, CoveredFields,
  TransactionSignature, Transaction, Block, BlockHeader,
}
use sia_prime.Types.Network.{Network, standard, add64, sub64, mul64}
use sia_prime.Types.Ids.{
  Crypto, specifier_siacoin_output, specifier_file_contract, specifier_siafund_output,
  specifier_storage_proof_output, transaction_id, siacoin_output_id, file_contract_id,
  siafund_output_id, sia_claim_output_id, storage_proof_output_id, merkle_leaves, header, header_id,
  block_id, miner_payout_id, unlock_hash,
}
use sia_prime.Consensus.Bolt.{Bolt, IsLawful, SameBucket}
use sia_prime.Consensus.Data.{
  DiffDirection, diff_apply, diff_revert, SiacoinOutputDiff, FileContractDiff, SiafundOutputDiff,
  DelayedSiacoinOutputDiff, SiafundPoolDiff, ProcessedBlock, Contracts, State,
}
use sia_prime.Consensus.Panic.{
  ◌>>=◌, pure, loop, loop_down, try_loop, try_loop_down, try_loop_from, bind-some, is_some, if-ap,
  if-==, none-some, ==-refl, if-if-==, if-if,
}
use sia_prime.Consensus.Database.{
  dev_addr, get_path, current_block_id, get_block_map, current_processed_block, add_block_map,
  push_path, pop_path, is_siacoin_output, get_siacoin_output, add_siacoin_output,
  remove_siacoin_output, get_file_contract, bucket_or_empty, add_file_contract,
  remove_file_contract, get_siafund_output, add_siafund_output, remove_siafund_output,
  DelayedOutputs, add_dsco, remove_dsco, create_dsco_bucket, delete_dsco_bucket,
}
use sia_prime.Consensus.Apply.{
  or_zero_siacoin_output, or_zero_siafund_output, or_zero_file_contract, Work, Rules,
  push_siacoin_output_diff, push_file_contract_diff, push_siafund_output_diff, push_delayed_diff,
  push_siafund_pool_diff, revised_contract, claim_portion, apply_siacoin_input,
  apply_siacoin_inputs, apply_siacoin_output, apply_siacoin_outputs, apply_file_contract,
  apply_file_contracts, apply_file_contract_revision, apply_file_contract_revisions,
  apply_proof_output, apply_storage_proof, apply_storage_proofs, apply_siafund_input,
  apply_siafund_inputs, apply_siafund_output, apply_siafund_outputs, apply_transaction,
}

-- The two diffs of an output that matures at a height: it is added to the unspent outputs, and taken
-- from the delayed ones.
unfoldable pub maturing_diff : Hash × SiacoinOutput → SiacoinOutputDiff
maturing_diff (id, sco) = record { direction = diff_apply; id = id; siacoin_output = sco }

unfoldable pub matured_diff : BlockHeight → Hash × SiacoinOutput → DelayedSiacoinOutputDiff
matured_diff height (id, sco) = record {
  direction = diff_revert;
  id = id;
  siacoin_output = sco;
  maturity_height = height;
}

-- The outputs of a contract without a storage proof, from an index on.
unfoldable pub missed_proof_diffs :
    Rules → Hash → BlockHeight → ℕ → List SiacoinOutput → List DelayedSiacoinOutputDiff
missed_proof_diffs rules fcid maturity i [] = []
missed_proof_diffs rules fcid maturity i (mpo ∷ mpos) =
    record {
      direction = diff_apply;
      id = storage_proof_output_id rules.crypto fcid false i;
      siacoin_output = mpo;
      maturity_height = maturity;
    }
    ∷ missed_proof_diffs rules fcid maturity (suc i) mpos

module _ {db : Bolt} where
  -- The outputs are collected first, and then the diffs are made and committed.
  unfoldable pub mature_outputs : List (Hash × SiacoinOutput) → Work db → Option (Work db)
  mature_outputs outputs w = do
    w1 ← try_loop push_siacoin_output_diff (map maturing_diff outputs) w
    w2 ← try_loop push_delayed_diff (map (matured_diff w.pb.height) outputs) w1
    pure (record w2 {
      tx = record w2.tx {
        delayed_outputs = delete_dsco_bucket db w.pb.height w2.tx.delayed_outputs;
      };
    })

module _ {db : Bolt} (rules : Rules) where
  abbrev pub matures : Work db → BlockHeight
  matures w = add64 w.pb.height rules.network.maturity_delay

  unfoldable pub apply_miner_payout : ℕ → SiacoinOutput → Work db → Option (Work db)
  apply_miner_payout i sco w =
      push_delayed_diff
        (record {
          direction = diff_apply;
          id = miner_payout_id rules.crypto w.pb.block i;
          siacoin_output = sco;
          maturity_height = matures w;
        })
        w

  unfoldable pub apply_miner_payouts : Work db → Option (Work db)
  apply_miner_payouts w = try_loop_from 0 apply_miner_payout w.pb.block.miner_payouts w

  -- A panic where the height has no bucket to iterate over.
  unfoldable pub apply_matured_siacoin_outputs : Work db → Option (Work db)
  apply_matured_siacoin_outputs w =
      if ltb w.pb.height rules.network.maturity_delay
      then some w
      else db.get w.pb.height w.tx.delayed_outputs >>= λ bucket.
          mature_outputs (db.entries bucket) w

  unfoldable pub apply_missed_storage_proof :
      Work db → Hash → List DelayedSiacoinOutputDiff × FileContractDiff
  apply_missed_storage_proof w fcid =
      let fc = or_zero_file_contract (get_file_contract db fcid w.tx.contracts) in
      (
        missed_proof_diffs rules fcid (matures w) 0 fc.missed_proof_outputs,
        record { direction = diff_revert; id = fcid; file_contract = fc },
      )

  -- The loop over the bucket of the contracts that expire.
  unfoldable pub missed_storage_proofs :
      Work db → List (Hash × Unit {0}) → List DelayedSiacoinOutputDiff × List FileContractDiff
  missed_storage_proofs w [] = ([], [])
  missed_storage_proofs w ((fcid, _) ∷ rest) =
      let (dscods, fcd) = apply_missed_storage_proof w fcid in
      let (more_dscods, more_fcds) = missed_storage_proofs w rest in
      (dscods ++ more_dscods, fcd ∷ more_fcds)

  unfoldable pub expire_contracts : db.Bucket Unit → Work db → Option (Work db)
  expire_contracts bucket w = do
    let (dscods, fcds) = missed_storage_proofs w (db.entries bucket)
    w1 ← try_loop push_delayed_diff dscods w
    w2 ← try_loop push_file_contract_diff fcds w1
    pure (record w2 {
      tx = record w2.tx {
        contracts = record w2.tx.contracts {
          expirations = db.delete w.pb.height w2.tx.contracts.expirations;
        };
      };
    })

  unfoldable pub apply_file_contract_maintenance : Work db → Option (Work db)
  apply_file_contract_maintenance w = elim (db.get w.pb.height w.tx.contracts.expirations) [
    | none ↦ some w
    | some bucket ↦ expire_contracts bucket w
  ]

  unfoldable pub apply_maintenance : Work db → Option (Work db)
  apply_maintenance w = do
    w1 ← apply_miner_payouts w
    w2 ← apply_matured_siacoin_outputs w1
    apply_file_contract_maintenance w2
