-- ===== src/Consensus/Diffs/Same.antt =====
-- modules/consensus/diffs.go: when two states have the same content, and when the diffs of a block
-- suit a state.
use sia_prime.Prelude.{leb, if◌then◌else◌, ◌^◌, ◌<◌, ◌≡◌, true, false, Option, none, some}
use sia_prime.Types.Data.{Currency, Hash, SiacoinOutput, SiafundOutput}
use sia_prime.Types.Network.{Network, add64}
use sia_prime.Consensus.Bolt.{Bolt, SameBucket}
use sia_prime.Consensus.Data.{
  DiffDirection, SiacoinOutputDiff, SiafundOutputDiff, SiafundPoolDiff, ProcessedBlock, State,
}
use sia_prime.Consensus.Panic.{try_loop}
use sia_prime.Consensus.Database.{DelayedOutputs, create_dsco_bucket}
use sia_prime.Consensus.Diffs.{
  commit_siacoin_output_diff, commit_file_contract_diff, commit_siafund_output_diff,
  commit_delayed_siacoin_output_diff, commit_siafund_pool_diff, commit_diff_set,
}
use sia_prime.Consensus.Diffs.Buckets.{FitAll, TryFitAll}
use sia_prime.Consensus.Diffs.Expiring.{SameContracts, FitsContracts}
use sia_prime.Consensus.Diffs.Delayed.{exists_at, delayed_at, SameDelayed, FitsDelayed}

module _ (db : Bolt) where
  -- The same height, pool, and content of every bucket.
  pub record SameState (s s' : State db) : Type 0 where
    pub same_height : s.block_height ≡ s'.block_height
    pub same_path : SameBucket db s.block_path s'.block_path
    pub same_block_map : SameBucket db s.block_map s'.block_map
    pub same_siacoins : SameBucket db s.siacoin_outputs s'.siacoin_outputs
    pub same_contracts : SameContracts db s.contracts s'.contracts
    pub same_siafunds : SameBucket db s.siafund_outputs s'.siafund_outputs
    pub same_pool : s.siafund_pool ≡ s'.siafund_pool
    pub same_delayed : SameDelayed db s.delayed_outputs s'.delayed_outputs

  abbrev pub FitsSiacoins : SiacoinOutputDiff → db.Bucket SiacoinOutput → Type 0
  FitsSiacoins d b = db.get d.id b ≡ (if d.direction then none else some d.siacoin_output)

  abbrev pub FitsSiafunds : SiafundOutputDiff → db.Bucket SiafundOutput → Type 0
  FitsSiafunds d b = db.get d.id b ≡ (if d.direction then none else some d.siafund_output)

  abbrev pub FitsPool : SiafundPoolDiff → Currency → Type 0
  FitsPool d pool = d.previous ≡ pool

  -- The delayed outputs that a block's diffs find.
  abbrev pub prepared : Network → ProcessedBlock → State db → DelayedOutputs db
  prepared net pb s = create_dsco_bucket db (add64 pb.height net.maturity_delay) s.delayed_outputs

  -- The diffs of a block suit a state: each adds what is not there and removes what is there as
  -- recorded, the path and the delayed outputs are free at the new heights, and the outputs that
  -- mature at the block's height are all taken out.
  pub record FitsBlock (net : Network) (pb : ProcessedBlock) (s : State db) : Type 0 where
    pub height_bound : s.block_height < 2 ^ 64
    pub path_free : db.get (add64 s.block_height 1) s.block_path ≡ none
    pub siacoins_fit :
        FitAll
          (commit_siacoin_output_diff db)
          FitsSiacoins
          pb.siacoin_output_diffs
          s.siacoin_outputs
    pub contracts_fit :
        TryFitAll
          (commit_file_contract_diff db)
          (FitsContracts db)
          pb.file_contract_diffs
          s.contracts
    pub siafunds_fit :
        FitAll
          (commit_siafund_output_diff db)
          FitsSiafunds
          pb.siafund_output_diffs
          s.siafund_outputs
    pub pool_fits :
        FitAll (commit_siafund_pool_diff db) FitsPool pb.siafund_pool_diffs s.siafund_pool
    pub maturity_free : exists_at db (add64 pb.height net.maturity_delay) s.delayed_outputs ≡ false
    pub delayed_fit :
        TryFitAll
          (commit_delayed_siacoin_output_diff db)
          (FitsDelayed db)
          pb.delayed_siacoin_output_diffs
          (prepared net pb s)
    pub all_matured :
        leb net.maturity_delay pb.height ≡ true
        → (d : DelayedOutputs db)
        → try_loop
            (commit_delayed_siacoin_output_diff db true)
            pb.delayed_siacoin_output_diffs
            (prepared net pb s)
          ≡ some d
        → (exists_at db pb.height d ≡ true) × ((i : Hash) → delayed_at db pb.height i d ≡ none)

  -- The turn of `applyUntilBlock` and of `revertToBlock`, with a block and its id.
  abbrev pub commit_block :
      Network → DiffDirection → Hash × ProcessedBlock → State db → Option (State db)
  commit_block net dir (bid, pb) s = commit_diff_set db net dir bid pb s

  abbrev pub FitsNext : Network → Hash × ProcessedBlock → State db → Type 0
  FitsNext net (bid, pb) s = FitsBlock net pb s
