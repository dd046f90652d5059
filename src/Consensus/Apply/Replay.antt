-- ===== src/Consensus/Apply/Replay.antt =====
-- modules/consensus/applytransaction.go and diffs.go: the diffs that applying a transaction records
-- are those that `commitNodeDiffs` commits to the same effect.
use sia_prime.Prelude.{◌≡◌, refl, true, Option, some, List, []}
use sia_prime.Types.Data.{Transaction}
use sia_prime.Consensus.Bolt.{Bolt}
use sia_prime.Consensus.Data.{diff_revert, FileContractDiff, ProcessedBlock, State}
use sia_prime.Consensus.Panic.{◌>>=◌, try_loop, try_loop_from, bind-some}
use sia_prime.Consensus.Database.{get_file_contract}
use sia_prime.Consensus.Diffs.{commit_node_diffs}
use sia_prime.Consensus.Apply.{
  or_zero_file_contract, Work, Rules, push_file_contract_diff, push_delayed_diff,
  apply_siacoin_input, apply_siacoin_inputs, apply_siacoin_output, apply_siacoin_outputs,
  apply_file_contract, apply_file_contracts, apply_file_contract_revision,
  apply_file_contract_revisions, apply_proof_output, apply_storage_proof, apply_storage_proofs,
  apply_siafund_input, apply_siafund_inputs, apply_siafund_output, apply_siafund_outputs,
  apply_transaction,
}
use sia_prime.Consensus.Apply.Loops.{try_loop-keeps, try_loop_from-keeps}
use sia_prime.Consensus.Apply.Recorded.{
  Replays, Replays-commits, push_siacoin_output_diff-Replays, push_siafund_output_diff-Replays,
  push_siafund_pool_diff-Replays, push_file_contract_diff-Replays, push_delayed_diff-Replays,
}

module _ {db : Bolt} (first : ProcessedBlock) (start : State db) (rules : Rules) where
  abbrev Keeps : (Work db → Option (Work db)) → Type 0
  Keeps f = (w w' : Work db) → Replays first start w → f w ≡ some w' → Replays first start w'

  then-Keeps : (f g : Work db → Option (Work db)) → Keeps f → Keeps g → Keeps (λ w. f w >>= g)
  then-Keeps f g kf kg w w' r h =
      let (w1, e, h') = bind-some (f w) g w' h in kg w1 w' (kf w w1 r e) h'

  inputs-Keeps : (t : Transaction) → Keeps (apply_siacoin_inputs rules t)
  unfolding apply_siacoin_inputs apply_siacoin_input
  inputs-Keeps t =
      try_loop-keeps (Replays first start) (apply_siacoin_input rules)
        (λ sci w w' r h. push_siacoin_output_diff-Replays first start _ w w' r h) t.siacoin_inputs

  outputs-Keeps : (t : Transaction) → Keeps (apply_siacoin_outputs rules t)
  unfolding apply_siacoin_outputs apply_siacoin_output
  outputs-Keeps t =
      try_loop_from-keeps (Replays first start) (apply_siacoin_output rules t)
        (λ i sco w w' r h. push_siacoin_output_diff-Replays first start _ w w' r h) 0
        t.siacoin_outputs

  contracts-Keeps : (t : Transaction) → Keeps (apply_file_contracts rules t)
  unfolding apply_file_contracts apply_file_contract
  contracts-Keeps t =
      try_loop_from-keeps (Replays first start) (apply_file_contract rules t)
        (λ i fc w w' r h.
          let (w1, e, h') = bind-some (push_file_contract_diff _ w) _ w' h in
          push_siafund_pool_diff-Replays first start _ w1 w'
            (push_file_contract_diff-Replays first start _ w w1 r e) h')
        0 t.file_contracts

  revisions-Keeps : (t : Transaction) → Keeps (apply_file_contract_revisions rules t)
  unfolding apply_file_contract_revisions apply_file_contract_revision
  revisions-Keeps t =
      try_loop-keeps (Replays first start) (apply_file_contract_revision rules)
        (λ fcr w w' r h.
          let (w1, e, h') = bind-some (push_file_contract_diff _ w) _ w' h in
          push_file_contract_diff-Replays first start _ w1 w'
            (push_file_contract_diff-Replays first start _ w w1 r e) h')
        t.file_contract_revisions

  proofs-Keeps : (t : Transaction) → Keeps (apply_storage_proofs rules t)
  unfolding apply_storage_proofs apply_storage_proof apply_proof_output
  proofs-Keeps t =
      try_loop-keeps (Replays first start) (apply_storage_proof rules)
        (λ sp w w' r h.
          let fc = or_zero_file_contract (get_file_contract db sp.parent_id w.tx.contracts) in
          let fcd : FileContractDiff = record {
            direction = diff_revert;
            id = sp.parent_id;
            file_contract = fc;
          } in
          let (w1, e, h') =
            bind-some
              (try_loop_from 0 (apply_proof_output rules sp.parent_id true) fc.valid_proof_outputs
                w)
              (push_file_contract_diff fcd) w' h in
          push_file_contract_diff-Replays first start fcd w1 w'
            (try_loop_from-keeps (Replays first start) (apply_proof_output rules sp.parent_id true)
              (λ i sco v v' q k. push_delayed_diff-Replays first start _ v v' q k) 0
              fc.valid_proof_outputs w w1 r e)
            h')
        t.storage_proofs

  siafund_inputs-Keeps : (t : Transaction) → Keeps (apply_siafund_inputs rules t)
  unfolding apply_siafund_inputs apply_siafund_input
  siafund_inputs-Keeps t =
      try_loop-keeps (Replays first start) (apply_siafund_input rules)
        (λ sfi w w' r h.
          let (w1, e, h') = bind-some (push_delayed_diff _ w) _ w' h in
          push_siafund_output_diff-Replays first start _ w1 w'
            (push_delayed_diff-Replays first start _ w w1 r e) h')
        t.siafund_inputs

  siafund_outputs-Keeps : (t : Transaction) → Keeps (apply_siafund_outputs rules t)
  unfolding apply_siafund_outputs apply_siafund_output
  siafund_outputs-Keeps t =
      try_loop_from-keeps (Replays first start) (apply_siafund_output rules t)
        (λ i sfo w w' r h. push_siafund_output_diff-Replays first start _ w w' r h) 0
        t.siafund_outputs

  pub apply_transaction-Keeps : (t : Transaction) → Keeps (apply_transaction rules t)
  unfolding apply_transaction
  apply_transaction-Keeps t = then-Keeps _ _ (inputs-Keeps t) (
      then-Keeps _ _ (outputs-Keeps t) (
        then-Keeps _ _ (contracts-Keeps t) (
          then-Keeps _ _ (revisions-Keeps t) (
            then-Keeps _ _ (proofs-Keeps t)
              (then-Keeps _ _ (siafund_inputs-Keeps t) (siafund_outputs-Keeps t))))))

-- A block without diffs begins with its own state.
pub no_diffs-Replays :
    {db : Bolt} (pb : ProcessedBlock) (s : State db)
    → pb.siacoin_output_diffs ≡ []
    → pb.file_contract_diffs ≡ []
    → pb.siafund_output_diffs ≡ []
    → pb.delayed_siacoin_output_diffs ≡ []
    → pb.siafund_pool_diffs ≡ []
    → Replays pb s (record { pb = pb; tx = s })
no_diffs-Replays pb s e1 e2 e3 e4 e5 = record {
  siacoins = rw e1 refl;
  contracts = rw e2 refl;
  siafunds = rw e3 refl;
  delayed = rw e4 refl;
  pool = rw e5 refl;
  rest = (refl, refl, refl);
  same_block = (refl, refl);
}

module _ {db : Bolt} (start : State db) (rules : Rules) where
  -- From a block without diffs, when transactions are applied one after another and none panics, the
  -- diffs that the block has gathered commit to the very state that was reached.
  pub apply_transaction-replays :
      (ts : List Transaction) (pb : ProcessedBlock) (w : Work db)
      → pb.siacoin_output_diffs ≡ []
      → pb.file_contract_diffs ≡ []
      → pb.siafund_output_diffs ≡ []
      → pb.delayed_siacoin_output_diffs ≡ []
      → pb.siafund_pool_diffs ≡ []
      → try_loop (apply_transaction rules) ts (record { pb = pb; tx = start }) ≡ some w
      → commit_node_diffs db true w.pb start ≡ some w.tx
  apply_transaction-replays ts pb w e1 e2 e3 e4 e5 h = Replays-commits pb start w (
      try_loop-keeps (Replays pb start) (apply_transaction rules)
        (apply_transaction-Keeps pb start rules) ts (record { pb = pb; tx = start }) w
        (no_diffs-Replays pb start e1 e2 e3 e4 e5) h)
