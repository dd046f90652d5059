-- ===== src/Consensus/Apply/Recorded.antt =====
-- modules/consensus/applytransaction.go: a block whose diffs commit to the state at hand still does
-- when a diff is appended to it and committed.
use sia_prime.Prelude.{◌≡◌, refl, ap, ◌∙◌, subst, true, some, some-injective}
use sia_prime.Consensus.Bolt.{Bolt}
use sia_prime.Consensus.Data.{
  SiacoinOutputDiff, FileContractDiff, SiafundOutputDiff, DelayedSiacoinOutputDiff, SiafundPoolDiff,
  ProcessedBlock, State,
}
use sia_prime.Consensus.Panic.{loop, try_loop, bind-some}
use sia_prime.Consensus.Diffs.{
  commit_siacoin_output_diff, commit_file_contract_diff, commit_siafund_output_diff,
  commit_delayed_siacoin_output_diff, commit_siafund_pool_diff, commit_node_diffs,
}
use sia_prime.Consensus.Apply.{
  Work, push_siacoin_output_diff, push_file_contract_diff, push_siafund_output_diff,
  push_delayed_diff, push_siafund_pool_diff,
}
use sia_prime.Consensus.Apply.Loops.{loop-snoc, try_loop-snoc}

module _ {db : Bolt} (first : ProcessedBlock) (start : State db) where
  -- The diffs of the block, which began as `first`, take `start` to the state at hand.
  pub record Replays (w : Work db) : Type 0 where
    pub siacoins :
        loop (commit_siacoin_output_diff db true) w.pb.siacoin_output_diffs start.siacoin_outputs
        ≡ w.tx.siacoin_outputs
    pub contracts :
        try_loop (commit_file_contract_diff db true) w.pb.file_contract_diffs start.contracts
        ≡ some w.tx.contracts
    pub siafunds :
        loop (commit_siafund_output_diff db true) w.pb.siafund_output_diffs start.siafund_outputs
        ≡ w.tx.siafund_outputs
    pub delayed :
        try_loop
          (commit_delayed_siacoin_output_diff db true)
          w.pb.delayed_siacoin_output_diffs
          start.delayed_outputs
        ≡ some w.tx.delayed_outputs
    pub pool :
        loop (commit_siafund_pool_diff db true) w.pb.siafund_pool_diffs start.siafund_pool
        ≡ w.tx.siafund_pool
    pub rest :
        (start.block_height ≡ w.tx.block_height)
        × (start.block_path ≡ w.tx.block_path)
        × (start.block_map ≡ w.tx.block_map)
    pub same_block : (w.pb.height ≡ first.height) × (w.pb.block ≡ first.block)

  -- The loops together are `commitNodeDiffs`.
  pub Replays-commits : (w : Work db) → Replays w → commit_node_diffs db true w.pb start ≡ some w.tx
  unfolding commit_node_diffs
  Replays-commits w r =
      let (h, p, m) = r.rest in
      rw (r.contracts, r.delayed, r.siacoins, r.siafunds, r.pool, h, p, m) refl

  pub push_siacoin_output_diff-Replays :
      (d : SiacoinOutputDiff) (w w' : Work db)
      → Replays w
      → push_siacoin_output_diff d w ≡ some w'
      → Replays w'
  unfolding push_siacoin_output_diff
  push_siacoin_output_diff-Replays d w w' r h = subst Replays (some-injective _ _ h) (record {
    siacoins =
        loop-snoc _ w.pb.siacoin_output_diffs d _
        ∙ ap (commit_siacoin_output_diff db true d) r.siacoins;
    contracts = r.contracts;
    siafunds = r.siafunds;
    delayed = r.delayed;
    pool = r.pool;
    rest = r.rest;
    same_block = r.same_block;
  })

  pub push_siafund_output_diff-Replays :
      (d : SiafundOutputDiff) (w w' : Work db)
      → Replays w
      → push_siafund_output_diff d w ≡ some w'
      → Replays w'
  unfolding push_siafund_output_diff
  push_siafund_output_diff-Replays d w w' r h = subst Replays (some-injective _ _ h) (record {
    siacoins = r.siacoins;
    contracts = r.contracts;
    siafunds =
        loop-snoc _ w.pb.siafund_output_diffs d _
        ∙ ap (commit_siafund_output_diff db true d) r.siafunds;
    delayed = r.delayed;
    pool = r.pool;
    rest = r.rest;
    same_block = r.same_block;
  })

  pub push_siafund_pool_diff-Replays :
      (d : SiafundPoolDiff) (w w' : Work db)
      → Replays w
      → push_siafund_pool_diff d w ≡ some w'
      → Replays w'
  unfolding push_siafund_pool_diff
  push_siafund_pool_diff-Replays d w w' r h = subst Replays (some-injective _ _ h) (record {
    siacoins = r.siacoins;
    contracts = r.contracts;
    siafunds = r.siafunds;
    delayed = r.delayed;
    pool = loop-snoc _ w.pb.siafund_pool_diffs d _ ∙ ap (commit_siafund_pool_diff db true d) r.pool;
    rest = r.rest;
    same_block = r.same_block;
  })

  pub push_file_contract_diff-Replays :
      (d : FileContractDiff) (w w' : Work db)
      → Replays w
      → push_file_contract_diff d w ≡ some w'
      → Replays w'
  unfolding push_file_contract_diff
  push_file_contract_diff-Replays d w w' r h =
      let (x, e, h') = bind-some (commit_file_contract_diff db true d _) _ w' h in
      subst Replays (some-injective _ _ h') (record {
        siacoins = r.siacoins;
        contracts = try_loop-snoc _ w.pb.file_contract_diffs d _ _ x r.contracts e;
        siafunds = r.siafunds;
        delayed = r.delayed;
        pool = r.pool;
        rest = r.rest;
        same_block = r.same_block;
      })

  pub push_delayed_diff-Replays :
      (d : DelayedSiacoinOutputDiff) (w w' : Work db)
      → Replays w
      → push_delayed_diff d w ≡ some w'
      → Replays w'
  unfolding push_delayed_diff
  push_delayed_diff-Replays d w w' r h =
      let (x, e, h') = bind-some (commit_delayed_siacoin_output_diff db true d _) _ w' h in
      subst Replays (some-injective _ _ h') (record {
        siacoins = r.siacoins;
        contracts = r.contracts;
        siafunds = r.siafunds;
        delayed = try_loop-snoc _ w.pb.delayed_siacoin_output_diffs d _ _ x r.delayed e;
        pool = r.pool;
        rest = r.rest;
        same_block = r.same_block;
      })
