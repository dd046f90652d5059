-- ===== src/Consensus/Generate/Replay.antt =====
-- modules/consensus/diffs.go: what `generateAndApplyDiff` does to a state is what `commitDiffSet`
-- does with the diffs that it recorded.
use sia_prime.Prelude.{
  ◌==◌, inr-injective, ◌≡◌, refl, sym, ap, ◌∙◌, subst, ◌⊎◌, inl, inr, true, false, some,
  some-injective, [], arith,
}
use sia_prime.Types.Data.{Hash, BlockHeight, SiacoinOutput, Transaction}
use sia_prime.Types.Network.{add64}
use sia_prime.Types.Ids.{block_id}
use sia_prime.Types.Outcome.{Outcome}
use sia_prime.Consensus.Bolt.{Bolt, IsLawful, SameBucket}
use sia_prime.Consensus.Data.{ProcessedBlock, State}
use sia_prime.Consensus.Panic.{bind-some}
use sia_prime.Consensus.Database.{add_block_map, push_path, create_dsco_bucket}
use sia_prime.Consensus.Diffs.{
  create_upcoming_delayed_output_maps, delete_obsolete_delayed_output_maps, commit_node_diffs,
  update_current_path, with_delayed, commit_diff_set,
}
use sia_prime.Consensus.Apply.{Work, Rules}
use sia_prime.Consensus.Apply.Recorded.{Replays-commits}
use sia_prime.Consensus.Apply.Replay.{no_diffs-Replays}
use sia_prime.Consensus.Maintenance.{apply_maintenance}
use sia_prime.Consensus.Validity.{ConsensusError}
use sia_prime.Consensus.Generate.{
  SiafundFork, validate_and_apply, finish_block, create_maturity_bucket,
  maybe_fix_siafund_allocation, complete_block, complete_if_valid, generate_and_apply_diff,
}
use sia_prime.Consensus.Generate.Agreement.{view, dropped}
use sia_prime.Consensus.Generate.Steps.{
  transactions-Keeps, AfterMaintenance, maintenance-AfterMaintenance, fix-AfterMaintenance,
}

-- The state that a replay gives, and the one that the block's first application gave: the same, save
-- that the map has the block, and that the expirations at the block's height are gone.
pub record AgreesWithReplay {db : Bolt} (bid : Hash) (pb : ProcessedBlock) (replayed : State db)
    (generated : State db) : Type 0 where
  pub same_height : replayed.block_height ≡ generated.block_height
  pub same_path : replayed.block_path ≡ generated.block_path
  pub with_block : generated.block_map ≡ db.put bid pb replayed.block_map
  pub same_siacoins : replayed.siacoin_outputs ≡ generated.siacoin_outputs
  pub same_siafunds : replayed.siafund_outputs ≡ generated.siafund_outputs
  pub same_pool : replayed.siafund_pool ≡ generated.siafund_pool
  pub same_contracts : replayed.contracts.file_contracts ≡ generated.contracts.file_contracts
  pub same_expirations :
      (k : BlockHeight)
      → (k == pb.height) ≡ false
      → db.get k replayed.contracts.expirations ≡ db.get k generated.contracts.expirations
  pub same_delayed : SameBucket db replayed.delayed_outputs generated.delayed_outputs

module _ {db : Bolt} (rules : Rules) (fork : SiafundFork) where
  pub complete-some :
      (r : ConsensusError ⊎ Work db) (w : Work db)
      → complete_if_valid rules fork r ≡ some (inr w)
      → (w1 : Work db) × (r ≡ inr w1) × (complete_block rules fork w1 ≡ some w)
  unfolding complete_if_valid
  complete-some (inl e) w h = absurd (ground arith)
  complete-some (inr w1) w h =
      let (w2, run, p) = bind-some (complete_block rules fork w1) _ (inr w) h in
      (w1, refl, run ∙ ap (λ v. some v) (inr-injective _ _ (some-injective _ _ p)))

  diff_set-run :
      (bid : Hash) (pb : ProcessedBlock) (s s1 : State db)
      → commit_node_diffs db true pb
          (with_delayed db (create_dsco_bucket db (add64 pb.height rules.network.maturity_delay)) s)
        ≡ some s1
      → commit_diff_set db rules.network true bid pb s
        ≡ some (update_current_path db true bid (with_delayed db (dropped db rules.network pb) s1))
  unfolding commit_diff_set create_upcoming_delayed_output_maps
  diff_set-run bid pb s s1 e = rw e refl

module _ {db : Bolt} (law : IsLawful db) (rules : Rules) (fork : SiafundFork) where
  -- What follows from the diffs before the block joins the path.
  finished :
      (pb : ProcessedBlock) (s : State db) (w : Work db)
      → AfterMaintenance law rules pb
          (with_delayed db (create_dsco_bucket db (add64 pb.height rules.network.maturity_delay)) s)
          w
      → (replayed : State db) × (commit_diff_set db rules.network true
            (block_id rules.crypto w.pb.block)
            (finish_block rules w).pb
            s
          ≡ some replayed)
        × AgreesWithReplay
            (block_id rules.crypto w.pb.block)
            (finish_block rules w).pb
            replayed
            (finish_block rules w).tx
  unfolding finish_block update_current_path push_path add_block_map commit_node_diffs
      delete_obsolete_delayed_output_maps
  finished pb s w (c, f, (same_c, same_x)) =
      let bid = block_id rules.crypto w.pb.block in
      let (same_h, same_b) = f.replays.same_block in
      let (height, path, block_map) = f.replays.rest in
      let created : db.Bucket (db.Bucket SiacoinOutput) → BlockHeight → State db = λ d k. record s {
        delayed_outputs = create_dsco_bucket db (add64 k rules.network.maturity_delay) d;
      } in
      let run : commit_node_diffs db true w.pb (created s.delayed_outputs w.pb.height)
          ≡ some (view c f.outputs w).tx =
        ap (λ k. commit_node_diffs db true w.pb (created s.delayed_outputs k)) same_h
        ∙ Replays-commits pb (created s.delayed_outputs pb.height) (view c f.outputs w) f.replays in
      (
        update_current_path db true bid
            (with_delayed db (dropped db rules.network w.pb) (view c f.outputs w).tx),
        diff_set-run rules fork bid (finish_block rules w).pb s (view c f.outputs w).tx run,
        record {
          same_height = refl;
          same_path = refl;
          with_block = refl;
          same_siacoins = refl;
          same_siafunds = refl;
          same_pool = refl;
          same_contracts = same_c;
          same_expirations = λ k other. same_x k (ap (λ x. k == x) (sym same_h) ∙ other);
          same_delayed = λ k.
              ap (λ x. db.get k (dropped db rules.network (record pb { height = x }) f.outputs))
                same_h
              ∙ f.agree k;
        },
      )

  -- When a block without diffs is verified and applied, and matured outputs never go to its own
  -- height, then committing the diffs that were recorded to the state before it gives the same
  -- height, path, outputs, contracts, siafund pool and delayed outputs; only the block itself is not
  -- put into the map, and the expirations at its height stay.
  pub generate_and_apply_diff-replays :
      (valid_signatures : BlockHeight → Transaction → Outcome) (pb : ProcessedBlock) (s : State db)
      (w : Work db)
      → pb.siacoin_output_diffs ≡ []
      → pb.file_contract_diffs ≡ []
      → pb.siafund_output_diffs ≡ []
      → pb.delayed_siacoin_output_diffs ≡ []
      → pb.siafund_pool_diffs ≡ []
      → (add64 pb.height rules.network.maturity_delay == pb.height) ≡ false
      → generate_and_apply_diff rules fork valid_signatures (record { pb = pb; tx = s })
        ≡ some (inr w)
      → (replayed : State db) × (commit_diff_set db rules.network true
            (block_id rules.crypto pb.block)
            w.pb
            s
          ≡ some replayed)
        × AgreesWithReplay (block_id rules.crypto pb.block) w.pb replayed w.tx
  unfolding generate_and_apply_diff complete_block create_maturity_bucket finish_block
  generate_and_apply_diff-replays vs pb s w e1 e2 e3 e4 e5 later h =
      let start =
        with_delayed db (create_dsco_bucket db (add64 pb.height rules.network.maturity_delay)) s in
      let (r, run, p) =
        bind-some
          (validate_and_apply rules vs pb.block.transactions (record { pb = pb; tx = start })) _
          (inr w) h in
      let (w1, valid, p1) = complete-some rules fork r w p in
      let (w2, run2, p2) = bind-some (apply_maintenance rules w1) _ w p1 in
      let (w3, run3, p3) = bind-some (maybe_fix_siafund_allocation rules fork w2) _ w p2 in
      let r1 =
        transactions-Keeps law rules pb start vs pb.block.transactions
          (record { pb = pb; tx = start }) w1 (no_diffs-Replays pb start e1 e2 e3 e4 e5)
          (run ∙ ap (λ x. some x) valid) in
      let after : AfterMaintenance law rules pb start w3 =
        fix-AfterMaintenance law rules pb start fork w2 w3
          (maintenance-AfterMaintenance law rules pb start w1 w2 r1 later run2) run3 in
      let same_b = after.1.replays.same_block.1 in
      subst
        (λ v.
          (replayed : State db) × (commit_diff_set db rules.network true
              (block_id rules.crypto pb.block) v.pb s
            ≡ some replayed)
          × AgreesWithReplay (block_id rules.crypto pb.block) v.pb replayed v.tx)
        (some-injective _ _ p3)
        (subst
          (λ b.
            (replayed : State db) × (commit_diff_set db rules.network true (block_id rules.crypto b)
                (finish_block rules w3).pb s
              ≡ some replayed)
            × AgreesWithReplay (block_id rules.crypto b) (finish_block rules w3).pb replayed
                (finish_block rules w3).tx)
          same_b (finished pb s w3 after))
