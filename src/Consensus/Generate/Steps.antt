-- ===== src/Consensus/Generate/Steps.antt =====
-- modules/consensus/diffs.go and maintenance.go: each step of `generateAndApplyDiff` records the diffs
-- of what it changes.
use sia_prime.Prelude.{
  ltb, leb, ◌==◌, Bool-cases, Option-cases, All, All-append, ℕ, suc, inr-injective, ◌≡◌, refl, sym,
  ap, ◌∙◌, subst, inl, inr, true, false, some, some-injective, List, [], ◌∷◌, map, arith,
}
use sia_prime.Types.Data.{Hash, BlockHeight, SiacoinOutput, Transaction}
use sia_prime.Types.Network.{add64}
use sia_prime.Types.Outcome.{Outcome}
use sia_prime.Consensus.Bolt.{Bolt, IsLawful}
use sia_prime.Consensus.Data.{SiafundOutputDiff, ProcessedBlock, Contracts, State}
use sia_prime.Consensus.Panic.{bind-some, try_loop, try_loop_from}
use sia_prime.Consensus.Database.{get_file_contract, delete_dsco_bucket}
use sia_prime.Consensus.Diffs.{delete_obsolete_delayed_output_maps}
use sia_prime.Consensus.Apply.{
  or_zero_file_contract, Work, Rules, push_siacoin_output_diff, push_file_contract_diff,
  push_siafund_output_diff, push_delayed_diff, apply_transaction,
}
use sia_prime.Consensus.Apply.Loops.{try_loop-keeps, try_loop_from-keeps, try_loop-keeps_all}
use sia_prime.Consensus.Apply.Recorded.{
  Replays, push_siacoin_output_diff-Replays, push_delayed_diff-Replays,
}
use sia_prime.Consensus.Apply.Replay.{apply_transaction-Keeps}
use sia_prime.Consensus.Maintenance.{
  maturing_diff, matured_diff, missed_proof_diffs, mature_outputs, matures, apply_miner_payout,
  apply_miner_payouts, apply_matured_siacoin_outputs, apply_missed_storage_proof,
  missed_storage_proofs, expire_contracts, apply_file_contract_maintenance, apply_maintenance,
}
use sia_prime.Consensus.Validity.{valid_transaction}
use sia_prime.Consensus.Generate.{
  SiafundFork, genesis_siafund_diff, forked_siafund_diff, validate_and_apply,
  fix_siafund_allocation, maybe_fix_siafund_allocation,
}
use sia_prime.Consensus.Generate.Agreement.{
  Follows, FollowsOn, siafund-Follows, contract-FollowsOn, AddsLater, delayed-FollowsOn,
}

module _ {db : Bolt} (law : IsLawful db) (rules : Rules) (first : ProcessedBlock)
    (start : State db) where
  abbrev pub AfterMaturing : Work db → Type 0
  AfterMaturing = FollowsOn law rules.network first start

  pub transactions-Keeps :
      (valid_signatures : BlockHeight → Transaction → Outcome) (ts : List Transaction)
      (w w' : Work db)
      → Replays first start w
      → validate_and_apply rules valid_signatures ts w ≡ some (inr w')
      → Replays first start w'
  unfolding validate_and_apply
  transactions-Keeps vs [] w w' r h =
      subst (Replays first start) (inr-injective _ _ (some-injective _ _ h)) r
  transactions-Keeps vs (t ∷ ts) w w' r h =
      elim (Option-cases (valid_transaction db rules vs w.tx t)) [
        | inl e ↦
            let (w1, run, h') =
              bind-some (apply_transaction rules t w) _ (inr w')
                (rw (validate_and_apply, e) at h) in
            transactions-Keeps vs ts w1 w' (apply_transaction-Keeps first start rules t w w1 r run)
              h'
        | inr (x, e) ↦ let no = (rw (validate_and_apply, e) at h) in absurd (ground arith)
      ]

  pub payouts-Keeps :
      (w w' : Work db)
      → Replays first start w
      → apply_miner_payouts rules w ≡ some w'
      → Replays first start w'
  unfolding apply_miner_payouts apply_miner_payout
  payouts-Keeps w w' =
      try_loop_from-keeps (Replays first start) (apply_miner_payout rules)
        (λ i sco v v' r h. push_delayed_diff-Replays first start _ v v' r h) 0
        w.pb.block.miner_payouts w w'

  -- Before the deletion, the outputs that are dropped are those of the height.
  pub matured-Follows :
      (w w' : Work db)
      → Replays first start w
      → apply_matured_siacoin_outputs rules w ≡ some w'
      → AfterMaturing w'
  unfolding apply_matured_siacoin_outputs mature_outputs delete_obsolete_delayed_output_maps
  matured-Follows w w' r h = elim (Bool-cases (ltb w.pb.height rules.network.maturity_delay)) [
    | inl early ↦
        let not_yet : leb rules.network.maturity_delay first.height ≡ false =
          let e = r.same_block.0 in ground arith in
        subst AfterMaturing (some-injective _ _ (rw (apply_matured_siacoin_outputs, early) at h))
          (record { outputs = w.tx.delayed_outputs; replays = r; agree = λ k. rw not_yet refl })
    | inr late ↦
        let due : leb rules.network.maturity_delay first.height ≡ true =
          let e = r.same_block.0 in ground arith in
        let (bucket, g, p) =
          bind-some (db.get w.pb.height w.tx.delayed_outputs) _ w'
            (rw (apply_matured_siacoin_outputs, late) at h) in
        let outputs = db.entries bucket in
        let (w1, run1, p1) =
          bind-some (try_loop push_siacoin_output_diff (map maturing_diff outputs) w) _ w' p in
        let (w2, run2, p2) =
          bind-some (try_loop push_delayed_diff (map (matured_diff w.pb.height) outputs) w1) _ w'
            p1 in
        let r2 : Replays first start w2 =
          try_loop-keeps (Replays first start) push_delayed_diff
            (push_delayed_diff-Replays first start) (map (matured_diff w.pb.height) outputs) w1 w2
            (try_loop-keeps (Replays first start) push_siacoin_output_diff
              (push_siacoin_output_diff-Replays first start) (map maturing_diff outputs) w w1 r
              run1)
            run2 in
        subst AfterMaturing (some-injective _ _ p2) (record {
          outputs = w2.tx.delayed_outputs;
          replays = r2;
          agree = λ k. rw due (
              ap (λ x. db.get k (delete_dsco_bucket db x w2.tx.delayed_outputs))
                (sym (r.same_block.0)));
        })
  ]

  -- Contracts that differ at most in those that expire at the block's height.
  abbrev pub KeptContracts : Contracts db → Contracts db → Type 0
  KeptContracts c c' =
      (c.file_contracts ≡ c'.file_contracts)
      × ((k : BlockHeight)
          → (k == first.height) ≡ false
          → db.get k c.expirations ≡ db.get k c'.expirations)

  abbrev pub AfterMaintenance : Work db → Type 0
  AfterMaintenance w =
      (c : Contracts db) × Follows law rules.network first start c w
      × KeptContracts c w.tx.contracts

  pub missed-AddsLater :
      (fcid : Hash) (maturity : BlockHeight) (i : ℕ) (mpos : List SiacoinOutput)
      → (maturity == first.height) ≡ false
      → All
          (AddsLater law rules.network first start)
          (missed_proof_diffs rules fcid maturity i mpos)
  unfolding missed_proof_diffs
  missed-AddsLater fcid maturity i [] later = tt
  missed-AddsLater fcid maturity i (mpo ∷ mpos) later =
      ((refl, later), missed-AddsLater fcid maturity (suc i) mpos later)

  pub missed_proofs-AddsLater :
      (w : Work db) (expiring : List (Hash × Unit {0}))
      → (matures rules w == first.height) ≡ false
      → All (AddsLater law rules.network first start) (missed_storage_proofs rules w expiring).0
  unfolding missed_storage_proofs apply_missed_storage_proof
  missed_proofs-AddsLater w [] later = tt
  missed_proofs-AddsLater w ((fcid, _) ∷ expiring) later =
      All-append _ _ _
        (missed-AddsLater fcid (matures rules w) 0
          (or_zero_file_contract (get_file_contract db fcid w.tx.contracts)).missed_proof_outputs
          later)
        (missed_proofs-AddsLater w expiring later)

  pub expired-AfterMaintenance :
      (w w' : Work db) (bucket : db.Bucket Unit)
      → w.pb.height ≡ first.height
      → (matures rules w == first.height) ≡ false
      → AfterMaturing w
      → expire_contracts rules bucket w ≡ some w'
      → AfterMaintenance w'
  unfolding expire_contracts
  expired-AfterMaintenance w w' bucket e later f h =
      let diffs = missed_storage_proofs rules w (db.entries bucket) in
      let (w1, run1, p1) = bind-some (try_loop push_delayed_diff (diffs.0) w) _ w' h in
      let (w2, run2, p2) = bind-some (try_loop push_file_contract_diff (diffs.1) w1) _ w' p1 in
      let f1 : AfterMaturing w1 =
        try_loop-keeps_all AfterMaturing (AddsLater law rules.network first start) push_delayed_diff
          (delayed-FollowsOn law rules.network first start) (diffs.0) w w1
          (missed_proofs-AddsLater w (db.entries bucket) later) f run1 in
      let f2 : AfterMaturing w2 =
        try_loop-keeps AfterMaturing push_file_contract_diff
          (contract-FollowsOn law rules.network first start) (diffs.1) w1 w2 f1 run2 in
      subst AfterMaintenance (some-injective _ _ p2) (
        w2.tx.contracts,
        record { outputs = f2.outputs; replays = f2.replays; agree = f2.agree },
        (
          refl,
          λ k other. sym (
              law.get-delete k w.pb.height w2.tx.contracts.expirations
              ∙ rw (ap (λ x. k == x) e ∙ other) refl),
        ),
      )

  pub contracts-AfterMaintenance :
      (w w' : Work db)
      → w.pb.height ≡ first.height
      → (matures rules w == first.height) ≡ false
      → AfterMaturing w
      → apply_file_contract_maintenance rules w ≡ some w'
      → AfterMaintenance w'
  unfolding apply_file_contract_maintenance
  contracts-AfterMaintenance w w' e later f h =
      elim (Option-cases (db.get w.pb.height w.tx.contracts.expirations)) [
        | inl q ↦
            subst AfterMaintenance
              (some-injective _ _ (rw (apply_file_contract_maintenance, q) at h))
              (w.tx.contracts, f, (refl, λ k other. refl))
        | inr (bucket, q) ↦
            expired-AfterMaintenance w w' bucket e later f
              (rw (apply_file_contract_maintenance, q) at h)
      ]

  pub maintenance-AfterMaintenance :
      (w w' : Work db)
      → Replays first start w
      → (add64 first.height rules.network.maturity_delay == first.height) ≡ false
      → apply_maintenance rules w ≡ some w'
      → AfterMaintenance w'
  unfolding apply_maintenance
  maintenance-AfterMaintenance w w' r later h =
      let (w1, run1, p1) = bind-some (apply_miner_payouts rules w) _ w' h in
      let (w2, run2, p2) = bind-some (apply_matured_siacoin_outputs rules w1) _ w' p1 in
      let f2 = matured-Follows w1 w2 (payouts-Keeps w w1 r run1) run2 in
      let e = f2.replays.same_block.0 in
      contracts-AfterMaintenance w2 w' e
        (ap (λ x. add64 x rules.network.maturity_delay == first.height) e ∙ later) f2 p2

  pub siafund-AfterMaintenance :
      (d : SiafundOutputDiff) (w w' : Work db)
      → AfterMaintenance w
      → push_siafund_output_diff d w ≡ some w'
      → AfterMaintenance w'
  unfolding push_siafund_output_diff
  siafund-AfterMaintenance d w w' (c, f, kept) h =
      subst AfterMaintenance (some-injective _ _ h)
        (c, siafund-Follows law rules.network first start c d w _ f refl, kept)

  pub fix-AfterMaintenance :
      (fork : SiafundFork) (w w' : Work db)
      → AfterMaintenance w
      → maybe_fix_siafund_allocation rules fork w ≡ some w'
      → AfterMaintenance w'
  unfolding maybe_fix_siafund_allocation fix_siafund_allocation
  fix-AfterMaintenance fork w w' f h = elim (Bool-cases (w.pb.height == 7200)) [
    | inr e ↦
        subst AfterMaintenance (some-injective _ _ (rw (maybe_fix_siafund_allocation, e) at h)) f
    | inl e ↦
        let (w1, run1, p1) =
          bind-some
            (try_loop_from 0
              (λ i sfo v.
                push_siafund_output_diff (genesis_siafund_diff rules fork.genesis_siafunds i sfo) v)
              fork.genesis_siafunds.siafund_outputs w)
            _ w' (rw (maybe_fix_siafund_allocation, e) at h) in
        try_loop-keeps AfterMaintenance
          (λ sfo v. push_siafund_output_diff (forked_siafund_diff sfo) v)
          (λ sfo v v' q k. siafund-AfterMaintenance (forked_siafund_diff sfo) v v' q k)
          fork.forked_allocation w1 w'
          (try_loop_from-keeps AfterMaintenance _
            (λ i sfo v v' q k. siafund-AfterMaintenance _ v v' q k) 0
            fork.genesis_siafunds.siafund_outputs w w1 f run1)
          p1
  ]
