-- ===== src/Consensus/Generate/Siafunds.antt =====
-- modules/consensus/diffs.go: the change of the siafund allocation at block 7200, and its reversal.
use sia_prime.Prelude.{
  ◌==◌, Bool-cases, All, ℕ, ◌≡◌, refl, sym, ap, ◌∙◌, subst, inl, inr, false, Option, some,
  some-injective, List, [], ◌∷◌, ◌++◌, append-nil, append_assoc,
}
use sia_prime.Types.Data.{Hash, SiafundOutput}
use sia_prime.Types.Network.{Network}
use sia_prime.Types.Ids.{siafund_output_id}
use sia_prime.Consensus.Bolt.{Bolt, IsLawful}
use sia_prime.Consensus.Data.{SiafundOutputDiff, ProcessedBlock, State}
use sia_prime.Consensus.Panic.{loop_down, try_loop_down, try_loop_from, bind-some, ==-refl}
use sia_prime.Consensus.Database.{pop_path, add_siafund_output, remove_siafund_output}
use sia_prime.Consensus.Diffs.{
  same_direction, commit_file_contract_diff, commit_siafund_output_diff,
  commit_delayed_siacoin_output_diff, create_upcoming_delayed_output_maps, commit_node_diffs,
  update_current_path, with_delayed, commit_diff_set,
}
use sia_prime.Consensus.Apply.{Work, Rules, push_siafund_output_diff}
use sia_prime.Consensus.Apply.Loops.{try_loop-keeps, try_loop_from-keeps}
use sia_prime.Consensus.Generate.{
  SiafundFork, genesis_siafund_diff, forked_siafund_diff, fix_siafund_allocation,
}

module _ {db : Bolt} where
  -- The siafund diffs begin with the given ones.
  abbrev BeginsWith : List SiafundOutputDiff → Work db → Type 0
  BeginsWith ds w = (more : List SiafundOutputDiff) × (w.pb.siafund_output_diffs ≡ ds ++ more)

  push-BeginsWith :
      (ds : List SiafundOutputDiff) (d : SiafundOutputDiff) (w w' : Work db)
      → BeginsWith ds w
      → push_siafund_output_diff d w ≡ some w'
      → BeginsWith ds w'
  unfolding push_siafund_output_diff
  push-BeginsWith ds d w w' (more, e) h =
      subst (BeginsWith ds) (some-injective _ _ h)
        (more ++ (d ∷ []), ap (λ xs. xs ++ (d ∷ [])) e ∙ append_assoc ds more (d ∷ []))

  -- The first diff of the change is the first after those of the transactions.
  fix-BeginsWith :
      (rules : Rules) (fork : SiafundFork) (sfo : SiafundOutput) (sfos : List SiafundOutput)
      (w w' : Work db)
      → fork.genesis_siafunds.siafund_outputs ≡ sfo ∷ sfos
      → fix_siafund_allocation rules fork w ≡ some w'
      → BeginsWith
          (w.pb.siafund_output_diffs
            ++ (genesis_siafund_diff rules fork.genesis_siafunds 0 sfo ∷ []))
          w'
  unfolding fix_siafund_allocation push_siafund_output_diff
  fix-BeginsWith rules fork sfo sfos w w' e h =
      let first = genesis_siafund_diff rules fork.genesis_siafunds 0 sfo in
      let P = BeginsWith (w.pb.siafund_output_diffs ++ (first ∷ [])) in
      let remove : ℕ → SiafundOutput → Work db → Option (Work db) = λ i o v.
        push_siafund_output_diff (genesis_siafund_diff rules fork.genesis_siafunds i o) v in
      let (w1, run1, p1) =
        bind-some (try_loop_from 0 remove fork.genesis_siafunds.siafund_outputs w) _ w' h in
      let (v, q1, q2) =
        bind-some (remove 0 sfo w) (λ x. try_loop_from 1 remove sfos x) w1
          (ap (λ l. try_loop_from 0 remove l w) (sym e) ∙ run1) in
      try_loop-keeps P (λ o v. push_siafund_output_diff (forked_siafund_diff o) v)
        (λ o v v' q k. push-BeginsWith _ (forked_siafund_diff o) v v' q k) fork.forked_allocation w1
        w'
        (try_loop_from-keeps P remove (λ i o v v' q k. push-BeginsWith _ _ v v' q k) 1 sfos v w1
          (subst P (some-injective _ _ q1) ([], sym (append-nil _))) q2)
        p1

module _ {db : Bolt} (law : IsLawful db) where
  -- Diffs on other ids leave an entry as it is.
  others-Keep :
      (id : Hash) (o : Option SiafundOutput) (ds : List SiafundOutputDiff)
      (b : db.Bucket SiafundOutput)
      → All (λ d. (id == d.id) ≡ false) ds
      → db.get id b ≡ o
      → db.get id (loop_down (commit_siafund_output_diff db false) ds b) ≡ o
  unfolding commit_siafund_output_diff add_siafund_output remove_siafund_output
  others-Keep id o [] b others h = h
  others-Keep id o (d ∷ ds) b others h =
      let rest = loop_down (commit_siafund_output_diff db false) ds b in
      let ih = others-Keep id o ds b (others.1) h in
      elim (Bool-cases (same_direction d.direction false)) [
        | inl e ↦
            rw (commit_siafund_output_diff, e)
              (law.get-put id d.id d.siafund_output rest ∙ rw (others.0) ih)
        | inr e ↦
            rw (commit_siafund_output_diff, e) (law.get-delete id d.id rest ∙ rw (others.0) ih)
      ]

  loop_down-append :
      (ds es : List SiafundOutputDiff) (b : db.Bucket SiafundOutput)
      → loop_down (commit_siafund_output_diff db false) (ds ++ es) b
        ≡ loop_down
            (commit_siafund_output_diff db false)
            ds
            (loop_down (commit_siafund_output_diff db false) es b)
  loop_down-append [] es b = refl
  loop_down-append (d ∷ ds) es b =
      ap (commit_siafund_output_diff db false d) (loop_down-append ds es b)

  revert-siafunds :
      (net : Network) (bid : Hash) (pb : ProcessedBlock) (s s' : State db)
      → commit_diff_set db net false bid pb s ≡ some s'
      → loop_down (commit_siafund_output_diff db false) pb.siafund_output_diffs s.siafund_outputs
        ≡ s'.siafund_outputs
  unfolding commit_diff_set commit_node_diffs update_current_path pop_path
  revert-siafunds net bid pb s s' h =
      let (s1, run, p) =
        bind-some
          (commit_node_diffs db false pb
            (with_delayed db (create_upcoming_delayed_output_maps db net false pb) s))
          _ s' h in
      let (c, run_c, p_c) =
        bind-some
          (try_loop_down (commit_file_contract_diff db false) pb.file_contract_diffs s.contracts) _
          s1 run in
      let (d, run_d, p_d) =
        bind-some
          (try_loop_down (commit_delayed_siacoin_output_diff db false)
            pb.delayed_siacoin_output_diffs
            (create_upcoming_delayed_output_maps db net false pb s.delayed_outputs))
          _ s1 p_c in
      ap State.siafund_outputs (some-injective _ _ p_d)
      ∙ ap State.siafund_outputs (some-injective _ _ p)

  -- When the siafund allocation was changed in a block of which no transaction touched the first
  -- genesis output, and that block is reverted, from any state, the output is back, whether it had
  -- been spent before or not, and its value is 0.
  pub revert-siafund_fork :
      (rules : Rules) (fork : SiafundFork) (sfo : SiafundOutput) (sfos : List SiafundOutput)
      (w w' : Work db) (bid : Hash) (s s' : State db)
      → fork.genesis_siafunds.siafund_outputs ≡ sfo ∷ sfos
      → All
          (λ d. (siafund_output_id rules.crypto fork.genesis_siafunds 0 == d.id) ≡ false)
          w.pb.siafund_output_diffs
      → fix_siafund_allocation rules fork w ≡ some w'
      → commit_diff_set db rules.network false bid w'.pb s ≡ some s'
      → db.get (siafund_output_id rules.crypto fork.genesis_siafunds 0) s'.siafund_outputs
        ≡ some (record { value = 0; unlock_hash = sfo.unlock_hash; claim_start = 0 })
  unfolding genesis_siafund_diff commit_siafund_output_diff add_siafund_output
  revert-siafund_fork rules fork sfo sfos w w' bid s s' e others run reverted =
      let id = siafund_output_id rules.crypto fork.genesis_siafunds 0 in
      let first = genesis_siafund_diff rules fork.genesis_siafunds 0 sfo in
      let (more, began) = fix-BeginsWith rules fork sfo sfos w w' e run in
      let ds = w.pb.siafund_output_diffs in
      let rest = loop_down (commit_siafund_output_diff db false) more s.siafund_outputs in
      sym (ap (db.get id) (revert-siafunds rules.network bid w'.pb s s' reverted))
      ∙ (ap (λ l. db.get id (loop_down (commit_siafund_output_diff db false) l s.siafund_outputs))
            (began ∙ append_assoc ds (first ∷ []) more)
          ∙ (ap (db.get id) (loop_down-append ds (first ∷ more) s.siafund_outputs)
              ∙ others-Keep id _ ds _ others
                  (law.get-put id id first.siafund_output rest ∙ rw (==-refl id) refl)))
