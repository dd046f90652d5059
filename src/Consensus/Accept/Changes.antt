-- ===== src/Consensus/Accept/Changes.antt =====
-- modules/consensus/accept.go: what the changes that are returned say of the consensus set.
use sia_prime.Prelude.{
  ◌==◌, Bool-cases, Option-cases, ◌≡◌, refl, sym, ap, ◌∙◌, subst, ◌⊎◌, inl, inr, Bool, true, false,
  some, some-injective, List, [], ◌∷◌, ◌++◌,
}
use sia_prime.Types.Data.{BlockHeight, Transaction, Block}
use sia_prime.Types.Ids.{Crypto}
use sia_prime.Types.Outcome.{Outcome}
use sia_prime.Consensus.Bolt.{Bolt, IsLawful}
use sia_prime.Consensus.Data.{ProcessedBlock, State}
use sia_prime.Consensus.Panic.{bind-some}
use sia_prime.Consensus.Database.{get_path, current_block_id, current_processed_block}
use sia_prime.Consensus.Apply.{Rules}
use sia_prime.Consensus.Generate.{SiafundFork}
use sia_prime.Consensus.Fork.{InvalidBlock, fork_blockchain}
use sia_prime.Consensus.Difficulty.{TargetRules, heavier_than, new_child}
use sia_prime.Consensus.ChangeLog.{
  ChangeEntry, ChangeLog, entry_id, or_zero_id, link_tail, append_change_log,
}
use sia_prime.Consensus.Headers.{ConsensusSet}
use sia_prime.Consensus.Accept.{
  block_ids, Added, record_change, move_to_child, move_if_heavier, add_block_to_tree,
}
use sia_prime.Consensus.Accept.Tip.{last_block, last_block-of, IsTip, fork_blockchain-IsTip}

module _ {db : Bolt} (crypto : Crypto) where
  -- The last block of a change is the current one, and the change is the tail of the log.
  abbrev pub Reflects : ChangeEntry → ConsensusSet db → Type 0
  Reflects ce cs =
      ((ce.applied_blocks ≡ []) ⊎ (last_block ce.applied_blocks ≡ some (current_block_id db cs.tx)))
      × (cs.change_log.tail_id ≡ some (entry_id crypto ce))

  -- The last of the changes is so.
  abbrev pub LatestReflects : List ChangeEntry → ConsensusSet db → Type 0
  LatestReflects [] cs = Unit
  LatestReflects (ce ∷ []) cs = Reflects ce cs
  LatestReflects (ce ∷ ce' ∷ changes) cs = LatestReflects (ce' ∷ changes) cs

  pub Latest-append :
      (changes : List ChangeEntry) (ce : ChangeEntry) (cs : ConsensusSet db)
      → Reflects ce cs
      → LatestReflects (changes ++ (ce ∷ [])) cs
  Latest-append [] ce cs r = r
  Latest-append (a ∷ []) ce cs r = r
  Latest-append (a ∷ b ∷ changes) ce cs r = Latest-append (b ∷ changes) ce cs r

  pub Latest-same :
      (changes : List ChangeEntry) (cs cs' : ConsensusSet db)
      → current_block_id db cs'.tx ≡ current_block_id db cs.tx
      → cs'.change_log ≡ cs.change_log
      → LatestReflects changes cs
      → LatestReflects changes cs'
  Latest-same [] cs cs' tip log r = tt
  Latest-same (ce ∷ []) cs cs' tip log (last, tail) = (
    subst (λ id. (ce.applied_blocks ≡ []) ⊎ (last_block ce.applied_blocks ≡ some id)) (sym tip)
        last,
    ap (λ l. l.tail_id) log ∙ tail,
  )
  Latest-same (ce ∷ a ∷ changes) cs cs' tip log r = Latest-same (a ∷ changes) cs cs' tip log r

  append_change_log-tail :
      (ce : ChangeEntry) (log log' : ChangeLog db)
      → append_change_log crypto ce log ≡ some log'
      → log'.tail_id ≡ some (entry_id crypto ce)
  unfolding append_change_log
  append_change_log-tail ce log log' h = elim (Bool-cases (or_zero_id log.tail_id == 0)) [
    | inl e ↦ sym (ap (λ l. l.tail_id) (some-injective _ _ (rw (append_change_log, e) at h)))
    | inr e ↦
        let id = entry_id crypto ce in
        let (linked, _, p) =
          bind-some
            (link_tail db (or_zero_id log.tail_id) id
              (db.put id (record { entry = ce; next = 0 }) log.nodes))
            _ log' (rw (append_change_log, e) at h) in
        sym (ap (λ l. l.tail_id) (some-injective _ _ p))
  ]

  -- What adding a block may do to the current block and to the log.
  abbrev pub KeepsTip : ConsensusSet db → Added db → Type 0
  KeepsTip cs (Added.extended ce cs') = Reflects ce cs'
  KeepsTip cs (Added.non_extending cs') =
      (current_block_id db cs'.tx ≡ current_block_id db cs.tx) × (cs'.change_log ≡ cs.change_log)
  KeepsTip cs (Added.refused e dos) = Unit

module _ {db : Bolt} (law : IsLawful db) (rules : Rules) (targets : TargetRules)
    (fork : SiafundFork) (valid_signatures : BlockHeight → Transaction → Outcome) where
  record_change-KeepsTip :
      (cs : ConsensusSet db) (reverted applied : List ProcessedBlock) (s s' : State db)
      → IsTip law rules fork valid_signatures applied s' s
      → KeepsTip rules.crypto cs (record_change rules cs reverted applied s)
  unfolding record_change
  record_change-KeepsTip cs reverted applied s s' tip =
      let ce : ChangeEntry = record {
        reverted_blocks = block_ids rules.crypto reverted;
        applied_blocks = block_ids rules.crypto applied;
      } in
      elim (Option-cases (append_change_log rules.crypto ce cs.change_log)) [
        | inl e ↦ rw (record_change, e) tt
        | inr (log, e) ↦
            rw (record_change, e)
              (
                last_block-of (current_block_id db s') (current_block_id db s) ce.applied_blocks
                    tip,
                append_change_log-tail rules.crypto ce cs.change_log log e,
              )
      ]

  moved-KeepsTip :
      (cs : ConsensusSet db) (child : ProcessedBlock)
      (r : InvalidBlock ⊎ List ProcessedBlock × (List ProcessedBlock × State db))
      → fork_blockchain rules fork valid_signatures child cs.tx ≡ some r
      → (a : Added db) → move_to_child rules targets fork valid_signatures child cs ≡ some a
      → KeepsTip rules.crypto cs a
  unfolding move_to_child
  moved-KeepsTip cs child (inl invalid) run a h =
      subst (KeepsTip rules.crypto cs) (some-injective _ _ (rw (move_to_child, run) at h)) tt
  moved-KeepsTip cs child (inr (reverted, (applied, s))) run a h =
      let (s', tip) =
        fork_blockchain-IsTip law rules fork valid_signatures child cs.tx reverted applied s run in
      subst (KeepsTip rules.crypto cs) (some-injective _ _ (rw (move_to_child, run) at h))
        (record_change-KeepsTip cs reverted applied s s' tip)

  move_to_child-KeepsTip :
      (cs : ConsensusSet db) (child : ProcessedBlock) (a : Added db)
      → move_to_child rules targets fork valid_signatures child cs ≡ some a
      → KeepsTip rules.crypto cs a
  unfolding move_to_child
  move_to_child-KeepsTip cs child a h =
      let (r, run, _) = bind-some (fork_blockchain rules fork valid_signatures child cs.tx) _ a h in
      moved-KeepsTip cs child r run a h

  move_if_heavier-KeepsTip :
      (cs : ConsensusSet db) (child : ProcessedBlock) (heavier : Bool) (a : Added db)
      → move_if_heavier rules targets fork valid_signatures child cs heavier ≡ some a
      → KeepsTip rules.crypto cs a
  unfolding move_if_heavier
  move_if_heavier-KeepsTip cs child false a h =
      subst (KeepsTip rules.crypto cs) (some-injective _ _ h) (refl, refl)
  move_if_heavier-KeepsTip cs child true a h = move_to_child-KeepsTip cs child a h

  -- The new block is in the map and in the totals only.
  joined-KeepsTip :
      (cs joined : ConsensusSet db) (a : Added db)
      → current_block_id db joined.tx ≡ current_block_id db cs.tx
      → joined.change_log ≡ cs.change_log
      → KeepsTip rules.crypto joined a
      → KeepsTip rules.crypto cs a
  joined-KeepsTip cs joined (Added.extended ce cs') tip log k = k
  joined-KeepsTip cs joined (Added.non_extending cs') tip log (tip', log') =
      (tip' ∙ tip, log' ∙ log)
  joined-KeepsTip cs joined (Added.refused e dos) tip log k = tt

  pub add_block_to_tree-KeepsTip :
      (cs : ConsensusSet db) (b : Block) (parent : ProcessedBlock) (a : Added db)
      → add_block_to_tree rules targets fork valid_signatures b parent cs ≡ some a
      → KeepsTip rules.crypto cs a
  unfolding add_block_to_tree current_block_id get_path
  add_block_to_tree-KeepsTip cs b parent a h =
      let ((child, oak, block_map), _, p) =
        bind-some (new_child db rules targets parent b (cs.oak, cs.tx.block_map)) _ a h in
      let joined : ConsensusSet db = record cs {
        tx = record cs.tx { block_map = block_map };
        oak = oak;
      } in
      let (current, _, p1) = bind-some (current_processed_block db joined.tx) _ a p in
      let (heavier, _, p2) = bind-some (heavier_than child current) _ a p1 in
      joined-KeepsTip cs joined a refl refl (move_if_heavier-KeepsTip joined child heavier a p2)
