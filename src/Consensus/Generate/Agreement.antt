-- ===== src/Consensus/Generate/Agreement.antt =====
-- modules/consensus/maintenance.go: diffs that are recorded after the delayed outputs of the block's
-- height are deleted. A replay deletes them only after all diffs.
use sia_prime.Prelude.{
  leb, ◌==◌, if◌then◌else◌, Bool-cases, ◌≡◌, refl, sym, ap, ◌∙◌, subst, inl, inr, true, false, some,
  some-injective, arith,
}
use sia_prime.Types.Data.{BlockHeight, SiacoinOutput}
use sia_prime.Types.Network.{Network}
use sia_prime.Consensus.Bolt.{Bolt, IsLawful, SameBucket}
use sia_prime.Consensus.Data.{
  FileContractDiff, SiafundOutputDiff, DelayedSiacoinOutputDiff, ProcessedBlock, Contracts, State,
}
use sia_prime.Consensus.Panic.{bind-some}
use sia_prime.Consensus.Database.{DelayedOutputs, add_dsco, remove_dsco, delete_dsco_bucket}
use sia_prime.Consensus.Diffs.{
  same_direction, commit_file_contract_diff, commit_delayed_siacoin_output_diff,
  delete_obsolete_delayed_output_maps,
}
use sia_prime.Consensus.Apply.{
  Work, push_file_contract_diff, push_siafund_output_diff, push_delayed_diff,
}
use sia_prime.Consensus.Apply.Recorded.{
  Replays, push_siafund_output_diff-Replays, push_file_contract_diff-Replays,
  push_delayed_diff-Replays,
}

module _ {db : Bolt} where
  abbrev pub view : Contracts db → DelayedOutputs db → Work db → Work db
  view c d w = record w { tx = record w.tx { contracts = c; delayed_outputs = d } }

module _ (db : Bolt) where
  -- To add a delayed output, seen as a diff.
  pub commit-add_dsco :
      (d : DelayedSiacoinOutputDiff) (o : DelayedOutputs db)
      → d.direction ≡ true
      → commit_delayed_siacoin_output_diff db true d o
        ≡ add_dsco db d.maturity_height d.id d.siacoin_output o
  unfolding commit_delayed_siacoin_output_diff
  commit-add_dsco d o e =
      ap
        (λ b.
          if same_direction b true
          then add_dsco db d.maturity_height d.id d.siacoin_output o
          else remove_dsco db d.maturity_height d.id o)
        e

  -- What remains of the delayed outputs when a block at the height of `first` is applied.
  abbrev pub dropped : Network → ProcessedBlock → DelayedOutputs db → DelayedOutputs db
  dropped net first d = delete_obsolete_delayed_output_maps db net true first d

module _ {db : Bolt} (law : IsLawful db) (net : Network) (first : ProcessedBlock) where
  pub get-dropped :
      (k : BlockHeight) (d : DelayedOutputs db)
      → (k == first.height) ≡ false
      → db.get k (dropped db net first d) ≡ db.get k d
  unfolding delete_obsolete_delayed_output_maps delete_dsco_bucket
  get-dropped k d other = elim (Bool-cases (leb net.maturity_delay first.height)) [
    | inl e ↦ rw e (law.get-delete k first.height d ∙ rw other refl)
    | inr e ↦ rw e refl
  ]

  pub dropped-put :
      (k : BlockHeight) (b : db.Bucket SiacoinOutput) (d e : DelayedOutputs db)
      → (k == first.height) ≡ false
      → SameBucket db (dropped db net first d) e
      → SameBucket db (dropped db net first (db.put k b d)) (db.put k b e)
  unfolding delete_obsolete_delayed_output_maps delete_dsco_bucket
  dropped-put k b d e other same j = elim (Bool-cases (leb net.maturity_delay first.height)) [
    | inl q ↦
        let s : db.get j (db.delete first.height d) ≡ db.get j e =
          rw (delete_obsolete_delayed_output_maps, q) at (same j) in
        let l = law.get-delete j first.height (db.put k b d) in
        let m = law.get-put j k b d in
        let n = law.get-put j k b e in
        let o = law.get-delete j first.height d in
        rw q (elim (Bool-cases (j == first.height)) [
          | inl r ↦
              let jk : (j == k) ≡ false = ground arith in l ∙ rw (r, n, jk) (sym (rw r at o) ∙ s)
          | inr r ↦ l ∙ rw (r, m, n) (ap (λ x. if j == k then some b else x) (sym (rw r at o) ∙ s))
        ])
    | inr q ↦
        let s : db.get j d ≡ db.get j e = rw (delete_obsolete_delayed_output_maps, q) at (same j) in
        rw q (rw (law.get-put j k b d, law.get-put j k b e, s) refl)
  ]

module _ {db : Bolt} (law : IsLawful db) (net : Network) (first : ProcessedBlock)
    (start : State db) where
  -- The diffs of the block take `start` to the state at hand with the contracts `c`, and with delayed
  -- outputs that agree with those at hand once the height's are dropped.
  pub record Follows (c : Contracts db) (w : Work db) : Type 0 where
    pub outputs : DelayedOutputs db
    pub replays : Replays first start (view c outputs w)
    pub agree : SameBucket db (dropped db net first outputs) w.tx.delayed_outputs

  abbrev pub FollowsOn : Work db → Type 0
  FollowsOn w = Follows w.tx.contracts w

  pub siafund-Follows :
      (c : Contracts db) (d : SiafundOutputDiff) (w w' : Work db)
      → Follows c w
      → push_siafund_output_diff d w ≡ some w'
      → Follows c w'
  unfolding push_siafund_output_diff
  siafund-Follows c d w w' f h = subst (Follows c) (some-injective _ _ h) (record {
    outputs = f.outputs;
    replays = push_siafund_output_diff-Replays first start d (view c f.outputs w) _ f.replays refl;
    agree = f.agree;
  })

  pub contract-FollowsOn :
      (d : FileContractDiff) (w w' : Work db)
      → FollowsOn w
      → push_file_contract_diff d w ≡ some w'
      → FollowsOn w'
  unfolding push_file_contract_diff
  contract-FollowsOn d w w' f h =
      let (c, e, h') = bind-some (commit_file_contract_diff db true d w.tx.contracts) _ w' h in
      subst FollowsOn (some-injective _ _ h') (record {
        outputs = f.outputs;
        replays =
            push_file_contract_diff-Replays first start d (view w.tx.contracts f.outputs w) _
              f.replays (rw (push_file_contract_diff, e) refl);
        agree = f.agree;
      })

  -- A delayed output that is added at another height.
  abbrev pub AddsLater : DelayedSiacoinOutputDiff → Type 0
  AddsLater d = (d.direction ≡ true) × ((d.maturity_height == first.height) ≡ false)

  pub delayed-FollowsOn :
      (d : DelayedSiacoinOutputDiff) (w w' : Work db)
      → AddsLater d
      → FollowsOn w
      → push_delayed_diff d w ≡ some w'
      → FollowsOn w'
  unfolding push_delayed_diff add_dsco
  delayed-FollowsOn d w w' (adds, later) f h =
      let (o, e, h') =
        bind-some (commit_delayed_siacoin_output_diff db true d w.tx.delayed_outputs) _ w' h in
      let k = d.maturity_height in
      let (b, g, p) =
        bind-some (db.get k w.tx.delayed_outputs) _ o
          (sym (commit-add_dsco db d w.tx.delayed_outputs adds) ∙ e) in
      let b' = db.put d.id d.siacoin_output b in
      let there : db.get k f.outputs ≡ some b =
        sym (get-dropped law net first k f.outputs later) ∙ (f.agree k ∙ g) in
      let run : commit_delayed_siacoin_output_diff db true d f.outputs
          ≡ some (db.put k b' f.outputs) =
        commit-add_dsco db d f.outputs adds ∙ rw (add_dsco, there) refl in
      subst FollowsOn (some-injective _ _ h') (record {
        outputs = db.put k b' f.outputs;
        replays =
            push_delayed_diff-Replays first start d (view w.tx.contracts f.outputs w) _ f.replays
              (rw (push_delayed_diff, run) refl);
        agree =
            subst (SameBucket db (dropped db net first (db.put k b' f.outputs)))
              (some-injective _ _ p)
              (dropped-put law net first k b' f.outputs w.tx.delayed_outputs later f.agree);
      })
