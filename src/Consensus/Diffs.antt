-- ===== src/Consensus/Diffs.antt =====
-- modules/consensus/diffs.go: diffs are applied to the buckets and reverted.
pub mod Buckets
pub mod Delayed
pub mod Expiring
pub mod DelayedUndo
pub mod Same
pub mod Restore
use sia_prime.Prelude.{
  ltb, leb, ◌==◌, if◌then◌else◌, leb→le, ltb→lt, ==→eq, ==→ne, eq→==, Bool-cases, Option-cases,
  length, get_elem?, take, drop, replicate, All, sum_of, length-append, take-length_append,
  drop-length_append, sum_of-append, drop-append, ℕ, zero, suc, ◌+◌, ◌-◌, ◌*◌, ◌/◌, ◌%◌, ◌^◌, ◌≤◌,
  ◌<◌, inr-injective, ◌≡◌, refl, sym, ap, ◌∙◌, subst, ◌≢◌, ◌↔◌, ◌⊎◌, inl, inr, Bool, true, false,
  not, ◌&&◌, ◌||◌, Option, none, some, some-injective, List, [], ◌∷◌, ◌++◌, map, append-nil,
  append_assoc, arith,
}
use sia_prime.Types.Data.{
  Currency, Hash, BlockHeight, SiaPublicKey, UnlockConditions, SiacoinInput, SiacoinOutput,
  SiafundInput, SiafundOutput, FileContract, FileContractRevision, StorageProof, CoveredFields,
  TransactionSignature, Transaction, Block, BlockHeader,
}
use sia_prime.Types.Network.{Network, standard, add64, sub64, mul64}
use sia_prime.Consensus.Bolt.{Bolt, IsLawful, SameBucket}
use sia_prime.Consensus.Data.{
  DiffDirection, diff_apply, diff_revert, SiacoinOutputDiff, FileContractDiff, SiafundOutputDiff,
  DelayedSiacoinOutputDiff, SiafundPoolDiff, ProcessedBlock, Contracts, State,
}
use sia_prime.Consensus.Panic.{
  ◌>>=◌, pure, loop, loop_down, try_loop, try_loop_down, try_loop_from, bind-some, is_some, if-ap,
  if-==, none-some, ==-refl, if-if-==, if-if,
}
use sia_prime.Consensus.Database.{
  dev_addr, get_path, current_block_id, get_block_map, current_processed_block, add_block_map,
  push_path, pop_path, is_siacoin_output, get_siacoin_output, add_siacoin_output,
  remove_siacoin_output, get_file_contract, bucket_or_empty, add_file_contract,
  remove_file_contract, get_siafund_output, add_siafund_output, remove_siafund_output,
  DelayedOutputs, add_dsco, remove_dsco, create_dsco_bucket, delete_dsco_bucket,
}

abbrev pub same_direction : DiffDirection → DiffDirection → Bool
same_direction true dir = dir
same_direction false dir = not dir

module _ (db : Bolt) where
  unfoldable pub commit_siacoin_output_diff :
      DiffDirection → SiacoinOutputDiff → db.Bucket SiacoinOutput → db.Bucket SiacoinOutput
  commit_siacoin_output_diff dir scod b =
      if same_direction scod.direction dir
      then add_siacoin_output db scod.id scod.siacoin_output b
      else remove_siacoin_output db scod.id b

  unfoldable pub commit_file_contract_diff :
      DiffDirection → FileContractDiff → Contracts db → Option (Contracts db)
  commit_file_contract_diff dir fcd c =
      if same_direction fcd.direction dir
      then some (add_file_contract db fcd.id fcd.file_contract c)
      else remove_file_contract db fcd.id c

  unfoldable pub commit_siafund_output_diff :
      DiffDirection → SiafundOutputDiff → db.Bucket SiafundOutput → db.Bucket SiafundOutput
  commit_siafund_output_diff dir sfod b =
      if same_direction sfod.direction dir
      then add_siafund_output db sfod.id sfod.siafund_output b
      else remove_siafund_output db sfod.id b

  unfoldable pub commit_delayed_siacoin_output_diff :
      DiffDirection → DelayedSiacoinOutputDiff → DelayedOutputs db → Option (DelayedOutputs db)
  commit_delayed_siacoin_output_diff dir dscod d =
      if same_direction dscod.direction dir
      then add_dsco db dscod.maturity_height dscod.id dscod.siacoin_output d
      else remove_dsco db dscod.maturity_height dscod.id d

  unfoldable pub commit_siafund_pool_diff : DiffDirection → SiafundPoolDiff → Currency → Currency
  commit_siafund_pool_diff dir sfpd pool = if dir then sfpd.adjusted else sfpd.previous

  unfoldable pub create_upcoming_delayed_output_maps :
      Network → DiffDirection → ProcessedBlock → DelayedOutputs db → DelayedOutputs db
  create_upcoming_delayed_output_maps net dir pb d =
      if dir
      then create_dsco_bucket db (add64 pb.height net.maturity_delay) d
      else if leb net.maturity_delay pb.height
      then create_dsco_bucket db pb.height d
      else d

  unfoldable pub delete_obsolete_delayed_output_maps :
      Network → DiffDirection → ProcessedBlock → DelayedOutputs db → DelayedOutputs db
  delete_obsolete_delayed_output_maps net dir pb d =
      if dir && leb net.maturity_delay pb.height
      then delete_dsco_bucket db pb.height d
      else if not dir
      then delete_dsco_bucket db (add64 pb.height net.maturity_delay) d
      else d

  -- The loops run forwards to apply and backwards to revert.
  abbrev pub commit_each :
      {D S : Type 0} → (DiffDirection → D → S → S) → DiffDirection → List D → S → S
  commit_each commit true ds s = loop (commit true) ds s
  commit_each commit false ds s = loop_down (commit false) ds s

  abbrev pub try_commit_each :
      {D S : Type 0} → (DiffDirection → D → S → Option S) → DiffDirection → List D → S → Option S
  try_commit_each commit true ds s = try_loop (commit true) ds s
  try_commit_each commit false ds s = try_loop_down (commit false) ds s

  unfoldable pub commit_node_diffs : DiffDirection → ProcessedBlock → State db → Option (State db)
  commit_node_diffs dir pb s = do
    contracts' ← try_commit_each commit_file_contract_diff dir pb.file_contract_diffs s.contracts
    delayed' ←
        try_commit_each commit_delayed_siacoin_output_diff dir pb.delayed_siacoin_output_diffs
          s.delayed_outputs
    pure (record s {
      siacoin_outputs =
          commit_each commit_siacoin_output_diff dir pb.siacoin_output_diffs s.siacoin_outputs;
      contracts = contracts';
      siafund_outputs =
          commit_each commit_siafund_output_diff dir pb.siafund_output_diffs s.siafund_outputs;
      delayed_outputs = delayed';
      siafund_pool = commit_each commit_siafund_pool_diff dir pb.siafund_pool_diffs s.siafund_pool;
    })

  -- Given the id of the block.
  unfoldable pub update_current_path : DiffDirection → Hash → State db → State db
  update_current_path dir bid s = if dir then push_path db bid s else pop_path db s

  abbrev pub with_delayed : (DelayedOutputs db → DelayedOutputs db) → State db → State db
  with_delayed f s = record s { delayed_outputs = f s.delayed_outputs }

  unfoldable pub commit_diff_set :
      Network → DiffDirection → Hash → ProcessedBlock → State db → Option (State db)
  commit_diff_set net dir bid pb s = do
    s' ← commit_node_diffs dir pb (with_delayed (create_upcoming_delayed_output_maps net dir pb) s)
    pure (
        update_current_path dir bid
          (with_delayed (delete_obsolete_delayed_output_maps net dir pb) s'))
