-- ===== src/Consensus/Apply.antt =====
-- modules/consensus/applytransaction.go: a verified transaction is applied, and each change is
-- recorded as a diff in the processed block. In a release build an item that is missing reads as its
-- zero value, since only debug builds look at the error.
pub mod Loops
pub mod Recorded
pub mod Replay
use sia_prime.Prelude.{
  ltb, leb, ◌==◌, if◌then◌else◌, leb→le, ltb→lt, ==→eq, ==→ne, eq→==, Bool-cases, Option-cases,
  length, get_elem?, take, drop, replicate, All, sum_of, length-append, take-length_append,
  drop-length_append, sum_of-append, drop-append, ℕ, zero, suc, ◌+◌, ◌-◌, ◌*◌, ◌/◌, ◌%◌, ◌^◌, ◌≤◌,
  ◌<◌, inr-injective, ◌≡◌, refl, sym, ap, ◌∙◌, subst, ◌≢◌, ◌↔◌, ◌⊎◌, inl, inr, Bool, true, false,
  not, ◌&&◌, ◌||◌, Option, none, some, some-injective, List, [], ◌∷◌, ◌++◌, map, append-nil,
  append_assoc, arith,
}
use sia_prime.Types.Data.{
  Currency, Hash, BlockHeight, SiaPublicKey, UnlockConditions, SiacoinInput, SiacoinOutput,
  SiafundInput, SiafundOutput, FileContract, FileContractRevision, StorageProof, CoveredFields,
  TransactionSignature, Transaction, Block, BlockHeader,
}
use sia_prime.Types.Network.{Network, standard, add64, sub64, mul64}
use sia_prime.Types.Currency.{
  add, sub, mul, div, equals, is_zero, round_down, mul_rat, mul_tax, to_uint64, siafund_count,
  siafund_count-pos, tax_float_num, tax_float_den, tax_float_den-pos, mul_float_tax, tax, post_tax,
}
use sia_prime.Types.Ids.{
  Crypto, specifier_siacoin_output, specifier_file_contract, specifier_siafund_output,
  specifier_storage_proof_output, transaction_id, siacoin_output_id, file_contract_id,
  siafund_output_id, sia_claim_output_id, storage_proof_output_id, merkle_leaves, header, header_id,
  block_id, miner_payout_id, unlock_hash,
}
use sia_prime.Consensus.Bolt.{Bolt, IsLawful, SameBucket}
use sia_prime.Consensus.Data.{
  DiffDirection, diff_apply, diff_revert, SiacoinOutputDiff, FileContractDiff, SiafundOutputDiff,
  DelayedSiacoinOutputDiff, SiafundPoolDiff, ProcessedBlock, Contracts, State,
}
use sia_prime.Consensus.Panic.{
  ◌>>=◌, pure, loop, loop_down, try_loop, try_loop_down, try_loop_from, bind-some, is_some, if-ap,
  if-==, none-some, ==-refl, if-if-==, if-if,
}
use sia_prime.Consensus.Database.{
  dev_addr, get_path, current_block_id, get_block_map, current_processed_block, add_block_map,
  push_path, pop_path, is_siacoin_output, get_siacoin_output, add_siacoin_output,
  remove_siacoin_output, get_file_contract, bucket_or_empty, add_file_contract,
  remove_file_contract, get_siafund_output, add_siafund_output, remove_siafund_output,
  DelayedOutputs, add_dsco, remove_dsco, create_dsco_bucket, delete_dsco_bucket,
}
use sia_prime.Consensus.Diffs.{
  same_direction, commit_siacoin_output_diff, commit_file_contract_diff, commit_siafund_output_diff,
  commit_delayed_siacoin_output_diff, commit_siafund_pool_diff, create_upcoming_delayed_output_maps,
  delete_obsolete_delayed_output_maps, commit_each, try_commit_each, commit_node_diffs,
  update_current_path, with_delayed, commit_diff_set,
}

abbrev pub or_zero_siacoin_output : Option SiacoinOutput → SiacoinOutput
or_zero_siacoin_output none = record { value = 0; unlock_hash = 0 }
or_zero_siacoin_output (some sco) = sco

abbrev pub or_zero_siafund_output : Option SiafundOutput → SiafundOutput
or_zero_siafund_output none = record { value = 0; unlock_hash = 0; claim_start = 0 }
or_zero_siafund_output (some sfo) = sfo

abbrev pub or_zero_file_contract : Option FileContract → FileContract
or_zero_file_contract none = record {
  file_size = 0;
  file_merkle_root = 0;
  window_start = 0;
  window_end = 0;
  payout = 0;
  valid_proof_outputs = [];
  missed_proof_outputs = [];
  unlock_hash = 0;
  revision_number = 0;
}
or_zero_file_contract (some fc) = fc

-- The processed block and the database that a function is given pointers to.
pub record Work (db : Bolt) : Type 0 where
  pub pb : ProcessedBlock
  pub tx : State db

-- What the functions read besides: the build's constants, the hash functions, and the unlock hash of
-- the last output of `GenesisSiafundAllocation`.
pub record Rules : Type 0 where
  pub network : Network
  pub crypto : Crypto
  pub last_genesis_hash : Hash

-- To append a diff to the block's and commit it.
module _ {db : Bolt} where
  unfoldable pub push_siacoin_output_diff : SiacoinOutputDiff → Work db → Option (Work db)
  push_siacoin_output_diff scod w = some (record {
    pb = record w.pb { siacoin_output_diffs = w.pb.siacoin_output_diffs ++ (scod ∷ []) };
    tx = record w.tx {
      siacoin_outputs = commit_siacoin_output_diff db true scod w.tx.siacoin_outputs;
    };
  })

  unfoldable pub push_file_contract_diff : FileContractDiff → Work db → Option (Work db)
  push_file_contract_diff fcd w = do
    c ← commit_file_contract_diff db true fcd w.tx.contracts
    pure (record {
      pb = record w.pb { file_contract_diffs = w.pb.file_contract_diffs ++ (fcd ∷ []) };
      tx = record w.tx { contracts = c };
    })

  unfoldable pub push_siafund_output_diff : SiafundOutputDiff → Work db → Option (Work db)
  push_siafund_output_diff sfod w = some (record {
    pb = record w.pb { siafund_output_diffs = w.pb.siafund_output_diffs ++ (sfod ∷ []) };
    tx = record w.tx {
      siafund_outputs = commit_siafund_output_diff db true sfod w.tx.siafund_outputs;
    };
  })

  unfoldable pub push_delayed_diff : DelayedSiacoinOutputDiff → Work db → Option (Work db)
  push_delayed_diff dscod w = do
    d ← commit_delayed_siacoin_output_diff db true dscod w.tx.delayed_outputs
    pure (record {
      pb = record w.pb {
        delayed_siacoin_output_diffs = w.pb.delayed_siacoin_output_diffs ++ (dscod ∷ []);
      };
      tx = record w.tx { delayed_outputs = d };
    })

  unfoldable pub push_siafund_pool_diff : SiafundPoolDiff → Work db → Option (Work db)
  push_siafund_pool_diff sfpd w = some (record {
    pb = record w.pb { siafund_pool_diffs = w.pb.siafund_pool_diffs ++ (sfpd ∷ []) };
    tx = record w.tx { siafund_pool = commit_siafund_pool_diff db true sfpd w.tx.siafund_pool };
  })

unfoldable pub revised_contract : FileContractRevision → FileContract → FileContract
revised_contract fcr fc = record {
  file_size = fcr.new_file_size;
  file_merkle_root = fcr.new_file_merkle_root;
  window_start = fcr.new_window_start;
  window_end = fcr.new_window_end;
  payout = fc.payout;
  valid_proof_outputs = fcr.new_valid_proof_outputs;
  missed_proof_outputs = fcr.new_missed_proof_outputs;
  unlock_hash = fcr.new_unlock_hash;
  revision_number = fcr.new_revision_number;
}

-- A spent siafund claims its share of what the pool has grown by.
unfoldable pub claim_portion : Currency → SiafundOutput → Currency
claim_portion pool sfo =
    mul (div (sub pool sfo.claim_start) siafund_count siafund_count-pos) sfo.value

module _ {db : Bolt} (rules : Rules) where
  abbrev matures_at : Work db → BlockHeight
  matures_at w = add64 w.pb.height rules.network.maturity_delay

  unfoldable pub apply_siacoin_input : SiacoinInput → Work db → Option (Work db)
  apply_siacoin_input sci w =
      push_siacoin_output_diff
        (record {
          direction = diff_revert;
          id = sci.parent_id;
          siacoin_output =
              or_zero_siacoin_output (get_siacoin_output db sci.parent_id w.tx.siacoin_outputs);
        })
        w

  unfoldable pub apply_siacoin_inputs : Transaction → Work db → Option (Work db)
  apply_siacoin_inputs t w = try_loop apply_siacoin_input t.siacoin_inputs w

  unfoldable pub apply_siacoin_output : Transaction → ℕ → SiacoinOutput → Work db → Option (Work db)
  apply_siacoin_output t i sco w =
      push_siacoin_output_diff
        (record {
          direction = diff_apply;
          id = siacoin_output_id rules.crypto t i;
          siacoin_output = sco;
        })
        w

  unfoldable pub apply_siacoin_outputs : Transaction → Work db → Option (Work db)
  apply_siacoin_outputs t w = try_loop_from 0 (apply_siacoin_output t) t.siacoin_outputs w

  -- The tax on the payout goes into the siafund pool.
  unfoldable pub apply_file_contract : Transaction → ℕ → FileContract → Work db → Option (Work db)
  apply_file_contract t i fc w = do
    w1 ←
        push_file_contract_diff
          (record {
            direction = diff_apply;
            id = file_contract_id rules.crypto t i;
            file_contract = fc;
          })
          w
    push_siafund_pool_diff
        (record {
          direction = diff_apply;
          previous = w1.tx.siafund_pool;
          adjusted =
              add w1.tx.siafund_pool
                (tax rules.network.tax_hardfork_height w1.tx.block_height fc.payout);
        })
        w1

  unfoldable pub apply_file_contracts : Transaction → Work db → Option (Work db)
  apply_file_contracts t w = try_loop_from 0 (apply_file_contract t) t.file_contracts w

  unfoldable pub apply_file_contract_revision : FileContractRevision → Work db → Option (Work db)
  apply_file_contract_revision fcr w =
      let fc = or_zero_file_contract (get_file_contract db fcr.parent_id w.tx.contracts) in
      do
        w1 ←
            push_file_contract_diff
              (record { direction = diff_revert; id = fcr.parent_id; file_contract = fc }) w
        push_file_contract_diff
            (record {
              direction = diff_apply;
              id = fcr.parent_id;
              file_contract = revised_contract fcr fc;
            })
            w1

  unfoldable pub apply_file_contract_revisions : Transaction → Work db → Option (Work db)
  apply_file_contract_revisions t w =
      try_loop apply_file_contract_revision t.file_contract_revisions w

  -- An output of a contract, valid or missed, is delayed.
  unfoldable pub apply_proof_output : Hash → Bool → ℕ → SiacoinOutput → Work db → Option (Work db)
  apply_proof_output fcid status i sco w =
      push_delayed_diff
        (record {
          direction = diff_apply;
          id = storage_proof_output_id rules.crypto fcid status i;
          siacoin_output = sco;
          maturity_height = matures_at w;
        })
        w

  unfoldable pub apply_storage_proof : StorageProof → Work db → Option (Work db)
  apply_storage_proof sp w =
      let fc = or_zero_file_contract (get_file_contract db sp.parent_id w.tx.contracts) in
      do
        w1 ← try_loop_from 0 (apply_proof_output sp.parent_id true) fc.valid_proof_outputs w
        push_file_contract_diff
            (record { direction = diff_revert; id = sp.parent_id; file_contract = fc }) w1

  unfoldable pub apply_storage_proofs : Transaction → Work db → Option (Work db)
  apply_storage_proofs t w = try_loop apply_storage_proof t.storage_proofs w

  unfoldable pub apply_siafund_input : SiafundInput → Work db → Option (Work db)
  apply_siafund_input sfi w =
      let sfo = or_zero_siafund_output (
        get_siafund_output db rules.last_genesis_hash w.tx.block_height sfi.parent_id
          w.tx.siafund_outputs) in
      do
        w1 ←
            push_delayed_diff
              (record {
                direction = diff_apply;
                id = sia_claim_output_id rules.crypto sfi.parent_id;
                siacoin_output = record {
                  value = claim_portion w.tx.siafund_pool sfo;
                  unlock_hash = sfi.claim_unlock_hash;
                };
                maturity_height = matures_at w;
              })
              w
        push_siafund_output_diff
            (record { direction = diff_revert; id = sfi.parent_id; siafund_output = sfo }) w1

  unfoldable pub apply_siafund_inputs : Transaction → Work db → Option (Work db)
  apply_siafund_inputs t w = try_loop apply_siafund_input t.siafund_inputs w

  -- A new siafund output starts to claim from here on.
  unfoldable pub apply_siafund_output : Transaction → ℕ → SiafundOutput → Work db → Option (Work db)
  apply_siafund_output t i sfo w =
      push_siafund_output_diff
        (record {
          direction = diff_apply;
          id = siafund_output_id rules.crypto t i;
          siafund_output = record sfo { claim_start = w.tx.siafund_pool };
        })
        w

  unfoldable pub apply_siafund_outputs : Transaction → Work db → Option (Work db)
  apply_siafund_outputs t w = try_loop_from 0 (apply_siafund_output t) t.siafund_outputs w

  unfoldable pub apply_transaction : Transaction → Work db → Option (Work db)
  apply_transaction t w = do
    w1 ← apply_siacoin_inputs t w
    w2 ← apply_siacoin_outputs t w1
    w3 ← apply_file_contracts t w2
    w4 ← apply_file_contract_revisions t w3
    w5 ← apply_storage_proofs t w4
    w6 ← apply_siafund_inputs t w5
    apply_siafund_outputs t w6
