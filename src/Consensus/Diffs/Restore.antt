-- ===== src/Consensus/Diffs/Restore.antt =====
-- modules/consensus/diffs.go: to revert the diffs of blocks restores the state before them.
use sia_prime.Prelude.{
  leb, ◌==◌, ==→eq, ==→ne, Bool-cases, ℕ, ◌+◌, ◌-◌, ◌%◌, ◌^◌, ◌<◌, ◌≡◌, refl, sym, ap, ◌∙◌, subst,
  inl, inr, true, false, some, some-injective, List, arith,
}
use sia_prime.Types.Data.{Currency, Hash, SiacoinOutput, SiafundOutput}
use sia_prime.Types.Network.{Network, add64, sub64}
use sia_prime.Consensus.Bolt.{Bolt, IsLawful, SameBucket}
use sia_prime.Consensus.Data.{
  DiffDirection, SiacoinOutputDiff, SiafundOutputDiff, SiafundPoolDiff, ProcessedBlock, Contracts,
  State,
}
use sia_prime.Consensus.Panic.{try_loop, try_loop_down}
use sia_prime.Consensus.Database.{
  push_path, pop_path, add_siacoin_output, remove_siacoin_output, add_siafund_output,
  remove_siafund_output, DelayedOutputs,
}
use sia_prime.Consensus.Diffs.{
  commit_siacoin_output_diff, commit_file_contract_diff, commit_siafund_output_diff,
  commit_delayed_siacoin_output_diff, commit_siafund_pool_diff, create_upcoming_delayed_output_maps,
  delete_obsolete_delayed_output_maps, commit_each, try_commit_each, commit_node_diffs,
  update_current_path, commit_diff_set,
}
use sia_prime.Consensus.Diffs.Buckets.{
  undo-put, undo-entry, TryFitAll, undo_all, try_undo_all, run_all,
}
use sia_prime.Consensus.Diffs.Expiring.{
  SameContracts, FitsContracts, SameContracts-undo, FitsContracts-runs,
}
use sia_prime.Consensus.Diffs.Delayed.{SameDelayed, FitsDelayed}
use sia_prime.Consensus.Diffs.DelayedUndo.{
  SameDelayed-undo, FitsDelayed-runs, create-undone, delete-undone,
}
use sia_prime.Consensus.Diffs.Same.{
  SameState, FitsSiacoins, FitsSiafunds, FitsPool, prepared, FitsBlock, commit_block, FitsNext,
}

module _ (db : Bolt) (law : IsLawful db) where
  siacoins-undo :
      (d : SiacoinOutputDiff) (b c : db.Bucket SiacoinOutput)
      → FitsSiacoins db d b
      → SameBucket db c (commit_siacoin_output_diff db true d b)
      → SameBucket db (commit_siacoin_output_diff db false d c) b
  unfolding commit_siacoin_output_diff add_siacoin_output remove_siacoin_output
  siacoins-undo d b c = undo-entry db law d.direction d.id d.siacoin_output b c

  siafunds-undo :
      (d : SiafundOutputDiff) (b c : db.Bucket SiafundOutput)
      → FitsSiafunds db d b
      → SameBucket db c (commit_siafund_output_diff db true d b)
      → SameBucket db (commit_siafund_output_diff db false d c) b
  unfolding commit_siafund_output_diff add_siafund_output remove_siafund_output
  siafunds-undo d b c = undo-entry db law d.direction d.id d.siafund_output b c

  pool-undo :
      (d : SiafundPoolDiff) (b c : Currency)
      → FitsPool db d b
      → c ≡ commit_siafund_pool_diff db true d b
      → commit_siafund_pool_diff db false d c ≡ b
  unfolding commit_siafund_pool_diff
  pool-undo d b c fit same = fit

  -- What reverting first makes of the buckets of the heights is what the diffs left.
  reopened :
      (net : Network) (pb : ProcessedBlock) (s : State db)
      → FitsBlock db net pb s
      → (d c : DelayedOutputs db)
      → try_loop
          (commit_delayed_siacoin_output_diff db true)
          pb.delayed_siacoin_output_diffs
          (prepared db net pb s)
        ≡ some d
      → SameDelayed db c (delete_obsolete_delayed_output_maps db net true pb d)
      → SameDelayed db (create_upcoming_delayed_output_maps db net false pb c) d
  unfolding create_upcoming_delayed_output_maps delete_obsolete_delayed_output_maps
  reopened net pb s fit d c run same = elim (Bool-cases (leb net.maturity_delay pb.height)) [
    | inl e ↦
        let (there, emptied) = fit.all_matured e d run in
        rw e (
          delete-undone db law pb.height d c there emptied
            (rw (delete_obsolete_delayed_output_maps, e) at same))
    | inr e ↦ rw e (rw (delete_obsolete_delayed_output_maps, e) at same)
  ]

  delayed-undo :
      (net : Network) (pb : ProcessedBlock) (s : State db)
      → FitsBlock db net pb s
      → (d c : DelayedOutputs db)
      → try_loop
          (commit_delayed_siacoin_output_diff db true)
          pb.delayed_siacoin_output_diffs
          (prepared db net pb s)
        ≡ some d
      → SameDelayed db c (delete_obsolete_delayed_output_maps db net true pb d)
      → (d' : DelayedOutputs db) × (try_loop_down
            (commit_delayed_siacoin_output_diff db false)
            pb.delayed_siacoin_output_diffs
            (create_upcoming_delayed_output_maps db net false pb c)
          ≡ some d')
        × SameDelayed db (delete_obsolete_delayed_output_maps db net false pb d') s.delayed_outputs
  unfolding delete_obsolete_delayed_output_maps
  delayed-undo net pb s fit d c run same =
      let (d', back, undone) =
        try_undo_all (commit_delayed_siacoin_output_diff db) (FitsDelayed db) (SameDelayed db)
          (SameDelayed-undo db law) pb.delayed_siacoin_output_diffs (prepared db net pb s) d _
          fit.delayed_fit run (reopened net pb s fit d c run same) in
      (
        d',
        back,
        create-undone db law (add64 pb.height net.maturity_delay) s.delayed_outputs d'
            fit.maturity_free undone,
      )

  sub64-add64 : (h : ℕ) → h < 2 ^ 64 → sub64 (add64 h 1) 1 ≡ h
  sub64-add64 h bound = elim (Bool-cases (h == 2 ^ 64 - 1)) [
    | inl e ↦ rw (==→eq h (2 ^ 64 - 1) e) refl
    | inr e ↦
        let small : h < 2 ^ 64 - 1 = let no = ==→ne h (2 ^ 64 - 1) e in omega arith in
        let up : (h + 1) % 2 ^ 64 ≡ h + 1 = omega arith in rw up (omega arith)
  ]

  -- What the loops of a block's diffs leave, given what they leave of the contracts and the delayed
  -- outputs.
  abbrev pub after_diffs :
      DiffDirection → ProcessedBlock → State db → Contracts db → DelayedOutputs db → State db
  after_diffs dir pb s c d = record s {
    siacoin_outputs =
        commit_each db (commit_siacoin_output_diff db) dir pb.siacoin_output_diffs
          s.siacoin_outputs;
    contracts = c;
    siafund_outputs =
        commit_each db (commit_siafund_output_diff db) dir pb.siafund_output_diffs
          s.siafund_outputs;
    delayed_outputs = d;
    siafund_pool =
        commit_each db (commit_siafund_pool_diff db) dir pb.siafund_pool_diffs s.siafund_pool;
  }

  diff_set-runs :
      (net : Network) (dir : DiffDirection) (bid : Hash) (pb : ProcessedBlock) (s : State db)
      (c : Contracts db) (d : DelayedOutputs db)
      → try_commit_each db (commit_file_contract_diff db) dir pb.file_contract_diffs s.contracts
        ≡ some c
      → try_commit_each db
          (commit_delayed_siacoin_output_diff db)
          dir
          pb.delayed_siacoin_output_diffs
          (create_upcoming_delayed_output_maps db net dir pb s.delayed_outputs)
        ≡ some d
      → commit_diff_set db net dir bid pb s
        ≡ some (
            update_current_path db dir bid
              (after_diffs dir pb s c (delete_obsolete_delayed_output_maps db net dir pb d)))
  unfolding commit_diff_set commit_node_diffs
  diff_set-runs net dir bid pb s c d c_run d_run = rw (c_run, d_run) refl

  -- What a block whose diffs fit is applied to.
  abbrev pub after_block :
      Network → Hash → ProcessedBlock → State db → Contracts db → DelayedOutputs db → State db
  after_block net bid pb s c d =
      update_current_path db true bid
        (after_diffs true pb s c (delete_obsolete_delayed_output_maps db net true pb d))

  pub FitsBlock-runs :
      (net : Network) (bid : Hash) (pb : ProcessedBlock) (s : State db)
      → FitsBlock db net pb s
      → (c : Contracts db) × (d : DelayedOutputs db) × (try_loop
            (commit_file_contract_diff db true)
            pb.file_contract_diffs
            s.contracts
          ≡ some c)
        × (try_loop
              (commit_delayed_siacoin_output_diff db true)
              pb.delayed_siacoin_output_diffs
              (prepared db net pb s)
            ≡ some d)
        × (commit_diff_set db net true bid pb s ≡ some (after_block net bid pb s c d))
  unfolding create_upcoming_delayed_output_maps
  FitsBlock-runs net bid pb s fit =
      let (c, c_run) =
        run_all (commit_file_contract_diff db) (FitsContracts db) (FitsContracts-runs db law)
          pb.file_contract_diffs s.contracts fit.contracts_fit in
      let (d, d_run) =
        run_all (commit_delayed_siacoin_output_diff db) (FitsDelayed db) (FitsDelayed-runs db law)
          pb.delayed_siacoin_output_diffs (prepared db net pb s) fit.delayed_fit in
      (c, d, c_run, d_run, diff_set-runs net true bid pb s c d c_run d_run)

  -- From any state with the content that applying the block left, reverting gives the content before.
  pub SameState-undo :
      (net : Network) (bid : Hash) (pb : ProcessedBlock) (s s1 from : State db)
      → FitsBlock db net pb s
      → commit_diff_set db net true bid pb s ≡ some s1
      → SameState db from s1
      → (s2 : State db) × (commit_diff_set db net false bid pb from ≡ some s2) × SameState db s2 s
  unfolding update_current_path push_path pop_path
  SameState-undo net bid pb s s1 from fit run same =
      let (c1, d1, c_run, d_run, run1) = FitsBlock-runs net bid pb s fit in
      let same1 : SameState db from (after_block net bid pb s c1 d1) =
        subst (SameState db from) (some-injective _ _ (sym run ∙ run1)) same in
      let (c2, c_back, c_same) =
        try_undo_all (commit_file_contract_diff db) (FitsContracts db) (SameContracts db)
          (SameContracts-undo db law) pb.file_contract_diffs s.contracts c1 from.contracts
          fit.contracts_fit c_run same1.same_contracts in
      let (d2, d_back, d_same) =
        delayed-undo net pb s fit d1 from.delayed_outputs d_run same1.same_delayed in
      (
        update_current_path db false bid
            (after_diffs false pb from c2 (delete_obsolete_delayed_output_maps db net false pb d2)),
        diff_set-runs net false bid pb from c2 d2 c_back d_back,
        record {
          same_height =
              ap (λ h. sub64 h 1) same1.same_height ∙ sub64-add64 s.block_height fit.height_bound;
          same_path =
              subst (λ h. SameBucket db (db.delete h from.block_path) s.block_path)
                (sym same1.same_height)
                (undo-put db law (add64 s.block_height 1) bid s.block_path from.block_path
                  fit.path_free same1.same_path);
          same_block_map = same1.same_block_map;
          same_siacoins =
              undo_all (commit_siacoin_output_diff db) (FitsSiacoins db) (SameBucket db)
                siacoins-undo pb.siacoin_output_diffs s.siacoin_outputs from.siacoin_outputs
                fit.siacoins_fit same1.same_siacoins;
          same_contracts = c_same;
          same_siafunds =
              undo_all (commit_siafund_output_diff db) (FitsSiafunds db) (SameBucket db)
                siafunds-undo pb.siafund_output_diffs s.siafund_outputs from.siafund_outputs
                fit.siafunds_fit same1.same_siafunds;
          same_pool =
              undo_all (commit_siafund_pool_diff db) (FitsPool db) (λ a b. a ≡ b) pool-undo
                pb.siafund_pool_diffs s.siafund_pool from.siafund_pool fit.pool_fits
                same1.same_pool;
          same_delayed = d_same;
        },
      )

  pub refl-SameState : (s : State db) → SameState db s s
  refl-SameState s = record {
    same_height = refl;
    same_path = λ k. refl;
    same_block_map = λ k. refl;
    same_siacoins = λ k. refl;
    same_contracts = record { same_contracts = λ k. refl; same_expirations = λ h i. refl };
    same_siafunds = λ k. refl;
    same_pool = refl;
    same_delayed = record { same_heights = λ h. refl; same_outputs = λ h i. refl };
  }

  -- A block whose diffs fit the state is applied without a panic, and reverting it then gives back
  -- the state before it: the height, the path, the pool and the content of every bucket.
  pub commit_diff_set-restores :
      (net : Network) (bid : Hash) (pb : ProcessedBlock) (s : State db)
      → FitsBlock db net pb s
      → (s1 : State db) × (commit_diff_set db net true bid pb s ≡ some s1)
        × ((s2 : State db) × (commit_diff_set db net false bid pb s1 ≡ some s2) × SameState db s2 s)
  commit_diff_set-restores net bid pb s fit =
      let (c1, d1, _, _, run) = FitsBlock-runs net bid pb s fit in
      let s1 = after_block net bid pb s c1 d1 in
      (s1, run, SameState-undo net bid pb s s1 s1 fit run (refl-SameState s1))

  -- A chain of blocks, of which each fits the state that those before it leave, is applied without a
  -- panic, and reverting them from the last to the first gives back the state before them all: the
  -- height, the path, the pool and the content of every bucket.
  pub commit_blocks-restore :
      (net : Network) (blocks : List (Hash × ProcessedBlock)) (s : State db)
      → TryFitAll (commit_block db net) (FitsNext db net) blocks s
      → (s1 : State db) × (try_loop (commit_block db net true) blocks s ≡ some s1)
        × ((s2 : State db) × (try_loop_down (commit_block db net false) blocks s1 ≡ some s2)
            × SameState db s2 s)
  commit_blocks-restore net blocks s fit =
      let (s1, run) =
        run_all (commit_block db net) (FitsNext db net)
          (λ (bid, pb) b f.
            let (c, d, _, _, r) = FitsBlock-runs net bid pb b f in
            (after_block net bid pb b c d, r))
          blocks s fit in
      (
        s1,
        run,
        try_undo_all (commit_block db net) (FitsNext db net) (SameState db)
            (λ (bid, pb) b b' c f r same. SameState-undo net bid pb b b' c f r same) blocks s s1 s1
            fit run (refl-SameState s1),
      )
