-- ===== src/Consensus/Accept/Tip.antt =====
-- modules/consensus/fork.go and accept.go: which block is the current one afterwards.
use sia_prime.Prelude.{
  if◌then◌else◌, get_elem?, drop, inr-injective, ◌≡◌, refl, sym, ap, ◌∙◌, subst, ◌⊎◌, inl, inr,
  true, Option, none, some, some-injective, List, [], ◌∷◌, arith,
}
use sia_prime.Types.Data.{Hash, BlockHeight, Transaction}
use sia_prime.Types.Network.{Network, add64}
use sia_prime.Types.Ids.{block_id}
use sia_prime.Types.Outcome.{Outcome}
use sia_prime.Consensus.Bolt.{Bolt, IsLawful}
use sia_prime.Consensus.Data.{ProcessedBlock, State}
use sia_prime.Consensus.Panic.{bind-some, ==-refl}
use sia_prime.Consensus.Database.{get_path, current_block_id, add_block_map, push_path}
use sia_prime.Consensus.Diffs.{
  create_upcoming_delayed_output_maps, commit_node_diffs, update_current_path, with_delayed,
  commit_diff_set,
}
use sia_prime.Consensus.Apply.{Work, Rules}
use sia_prime.Consensus.Validity.{ConsensusError}
use sia_prime.Consensus.Generate.{
  SiafundFork, validate_and_apply, finish_block, create_maturity_bucket,
  maybe_fix_siafund_allocation, complete_block, generate_and_apply_diff,
}
use sia_prime.Consensus.Fork.{
  InvalidBlock, backtrack_to_current_path, revert_to_block, first_applied, with_applied,
  apply_known_block, apply_new_block, apply_block, apply_blocks, apply_until_block, with_reverted,
  fork_blockchain,
}
use sia_prime.Consensus.Fork.Invalid.{apply_block-cases}
use sia_prime.Consensus.Maintenance.{apply_maintenance}
use sia_prime.Consensus.Generate.Replay.{complete-some}
use sia_prime.Consensus.Fork.{
  InvalidBlock, backtrack_to_current_path, revert_to_block, first_applied, with_applied,
  apply_known_block, apply_new_block, apply_block, apply_blocks, apply_until_block, with_reverted,
  fork_blockchain,
}
use sia_prime.Consensus.Accept.{block_ids}

-- The last id of a list, after one before it.
abbrev pub last_of : Hash → List Hash → Hash
last_of id [] = id
last_of id (x ∷ xs) = last_of x xs

abbrev pub last_block : List Hash → Option Hash
last_block [] = none
last_block (x ∷ xs) = some (last_of x xs)

pub last_block-of :
    (id tip : Hash) (ids : List Hash)
    → tip ≡ last_of id ids
    → (ids ≡ []) ⊎ (last_block ids ≡ some tip)
last_block-of id tip [] h = inl refl
last_block-of id tip (x ∷ xs) h = inr (ap (λ y. some y) (sym h))

module _ {db : Bolt} (law : IsLawful db) where
  push_path-tip : (bid : Hash) (s : State db) → current_block_id db (push_path db bid s) ≡ bid
  unfolding push_path current_block_id get_path
  push_path-tip bid s =
      let top = add64 s.block_height 1 in
      ap (λ r. elim r [ none ↦ 0 | some id ↦ id ])
        (law.get-put top top bid s.block_path
          ∙ ap (λ b. if b then some bid else db.get top s.block_path) (==-refl top))

  commit_diff_set-tip :
      (net : Network) (bid : Hash) (pb : ProcessedBlock) (s s' : State db)
      → commit_diff_set db net true bid pb s ≡ some s'
      → current_block_id db s' ≡ bid
  unfolding commit_diff_set update_current_path
  commit_diff_set-tip net bid pb s s' h =
      let (s1, _, p) =
        bind-some
          (commit_node_diffs db true pb
            (with_delayed db (create_upcoming_delayed_output_maps db net true pb) s))
          _ s' h in
      subst (λ x. current_block_id db x ≡ bid) (some-injective _ _ p) (push_path-tip bid _)

  module _ (rules : Rules) (fork : SiafundFork)
      (valid_signatures : BlockHeight → Transaction → Outcome) where
    finish_block-tip :
        (w : Work db)
        → current_block_id db (finish_block rules w).tx
          ≡ block_id rules.crypto (finish_block rules w).pb.block
    unfolding finish_block update_current_path add_block_map current_block_id get_path
    finish_block-tip w = push_path-tip (block_id rules.crypto w.pb.block) w.tx

    generate_and_apply_diff-tip :
        (w w' : Work db)
        → generate_and_apply_diff rules fork valid_signatures w ≡ some (inr w')
        → current_block_id db w'.tx ≡ block_id rules.crypto w'.pb.block
    unfolding generate_and_apply_diff complete_block
    generate_and_apply_diff-tip w w' h =
        let (r, _, p) =
          bind-some
            (validate_and_apply rules valid_signatures w.pb.block.transactions
              (create_maturity_bucket rules w))
            _ (inr w') h in
        let (w1, _, p1) = complete-some rules fork r w' p in
        let (w2, _, p2) = bind-some (apply_maintenance rules w1) _ w' p1 in
        let (w3, _, p3) = bind-some (maybe_fix_siafund_allocation rules fork w2) _ w' p2 in
        subst (λ v. current_block_id db v.tx ≡ block_id rules.crypto v.pb.block)
          (some-injective _ _ p3) (finish_block-tip w3)

    -- What a block's own turn gives when it is applied with diffs.
    first_applied-tip :
        (r : ConsensusError ⊎ Work db) (pb' : ProcessedBlock) (s' : State db)
        → ((w : Work db) → r ≡ inr w → current_block_id db w.tx ≡ block_id rules.crypto w.pb.block)
        → some (first_applied r) ≡ some (inr (pb', s'))
        → current_block_id db s' ≡ block_id rules.crypto pb'.block
    first_applied-tip (inl e) pb' s' tip h = absurd (ground arith)
    first_applied-tip (inr w) pb' s' tip h =
        let same = inr-injective _ _ (some-injective _ _ h) in
        subst (λ x. current_block_id db x.1 ≡ block_id rules.crypto x.0.block) same (tip w refl)

    apply_block-tip :
        (pb pb' : ProcessedBlock) (s s' : State db)
        → apply_block rules fork valid_signatures pb s ≡ some (inr (pb', s'))
        → current_block_id db s' ≡ block_id rules.crypto pb'.block
    unfolding apply_known_block apply_new_block
    apply_block-tip pb pb' s s' h =
        let bid = block_id rules.crypto pb.block in
        elim (apply_block-cases rules fork valid_signatures pb s) [
          | inl (_, way) ↦
              let (s1, run, p) =
                bind-some (commit_diff_set db rules.network true bid pb s) _ (inr (pb', s'))
                  (sym way ∙ h) in
              let same = inr-injective _ _ (some-injective _ _ p) in
              subst (λ x. current_block_id db x.1 ≡ block_id rules.crypto x.0.block) same
                (commit_diff_set-tip rules.network bid pb s s1 run)
          | inr (_, way) ↦
              let (r, run, p) =
                bind-some
                  (generate_and_apply_diff rules fork valid_signatures (record { pb = pb; tx = s }))
                  _ (inr (pb', s')) (sym way ∙ h) in
              first_applied-tip r pb' s'
                (λ w e.
                  generate_and_apply_diff-tip (record { pb = pb; tx = s }) w
                    (run ∙ ap (λ x. some x) e))
                p
        ]

    -- The last of the blocks that were applied, if any, is the current one.
    abbrev pub IsTip : List ProcessedBlock → State db → State db → Type 0
    IsTip applied s s' =
        current_block_id db s' ≡ last_of (current_block_id db s) (block_ids rules.crypto applied)

    with_applied-IsTip :
        (pb : ProcessedBlock) (applied : List ProcessedBlock) (s s1 s' : State db)
        (r : InvalidBlock ⊎ List ProcessedBlock × State db)
        → current_block_id db s1 ≡ block_id rules.crypto pb.block
        → ((before : List ProcessedBlock) (x : State db) → r ≡ inr (before, x) → IsTip before s1 x)
        → some (with_applied pb r) ≡ some (inr (applied, s'))
        → IsTip applied s s'
    unfolding block_ids
    with_applied-IsTip pb applied s s1 s' (inl e) at tip h = absurd (ground arith)
    with_applied-IsTip pb applied s s1 s' (inr (before, x)) at tip h =
        subst (λ y. IsTip y.0 s y.1) (inr-injective _ _ (some-injective _ _ h))
          (tip before x refl ∙ ap (λ id. last_of id (block_ids rules.crypto before)) at)

    -- The loop after the first block's turn.
    turn-IsTip :
        (pb : ProcessedBlock) (pbs applied : List ProcessedBlock) (s s' : State db)
        (r : ConsensusError ⊎ ProcessedBlock × State db)
        → apply_block rules fork valid_signatures pb s ≡ some r
        → ((before : List ProcessedBlock) (s1 x : State db)
            → apply_blocks rules fork valid_signatures pbs s1 ≡ some (inr (before, x))
            → IsTip before s1 x)
        → apply_blocks rules fork valid_signatures (pb ∷ pbs) s ≡ some (inr (applied, s'))
        → IsTip applied s s'
    unfolding apply_blocks
    turn-IsTip pb pbs applied s s' (inl e) run later h =
        let impossible = rw (apply_blocks, run) at h in absurd (ground arith)
    turn-IsTip pb pbs applied s s' (inr (pb', s1)) run later h =
        let (r, rest, p) =
          bind-some (apply_blocks rules fork valid_signatures pbs s1) _ (inr (applied, s'))
            (rw (apply_blocks, run) at h) in
        with_applied-IsTip pb' applied s s1 s' r (apply_block-tip pb pb' s s1 run)
          (λ before x e. later before s1 x (rest ∙ ap (λ y. some y) e)) p

    pub apply_blocks-IsTip :
        (pbs applied : List ProcessedBlock) (s s' : State db)
        → apply_blocks rules fork valid_signatures pbs s ≡ some (inr (applied, s'))
        → IsTip applied s s'
    unfolding apply_blocks block_ids
    apply_blocks-IsTip [] applied s s' h =
        subst (λ y. IsTip y.0 s y.1) (inr-injective _ _ (some-injective _ _ h)) refl
    apply_blocks-IsTip (pb ∷ pbs) applied s s' h =
        let (r, run, _) =
          bind-some (apply_block rules fork valid_signatures pb s) _ (inr (applied, s')) h in
        turn-IsTip pb pbs applied s s' r run (λ before s1 x. apply_blocks-IsTip pbs before s1 x) h

    apply_until_block-IsTip :
        (pb : ProcessedBlock) (applied : List ProcessedBlock) (s s' : State db)
        → apply_until_block rules fork valid_signatures pb s ≡ some (inr (applied, s'))
        → IsTip applied s s'
    unfolding apply_until_block
    apply_until_block-IsTip pb applied s s' h =
        let (path, _, p) =
          bind-some (backtrack_to_current_path rules s pb) _ (inr (applied, s')) h in
        apply_blocks-IsTip (drop 1 path) applied s s' p

    with_reverted-IsTip :
        (reverted rev applied : List ProcessedBlock) (s s' : State db)
        (r : InvalidBlock ⊎ List ProcessedBlock × State db)
        → ((before : List ProcessedBlock) (x : State db) → r ≡ inr (before, x) → IsTip before s x)
        → some (with_reverted rev r) ≡ some (inr (reverted, (applied, s')))
        → IsTip applied s s'
    with_reverted-IsTip reverted rev applied s s' (inl e) tip h = absurd (ground arith)
    with_reverted-IsTip reverted rev applied s s' (inr (before, x)) tip h =
        subst (λ y. IsTip y.1.0 s y.1.1) (inr-injective _ _ (some-injective _ _ h))
          (tip before x refl)

    pub fork_blockchain-IsTip :
        (pb : ProcessedBlock) (s : State db) (reverted applied : List ProcessedBlock)
        (s'' : State db)
        → fork_blockchain rules fork valid_signatures pb s ≡ some (inr (reverted, (applied, s'')))
        → (s' : State db) × IsTip applied s' s''
    unfolding fork_blockchain
    fork_blockchain-IsTip pb s reverted applied s'' h =
        let target : InvalidBlock ⊎ List ProcessedBlock × (List ProcessedBlock × State db) =
          inr (reverted, (applied, s'')) in
        let (path, _, p) = bind-some (backtrack_to_current_path rules s pb) _ target h in
        let (parent, _, p1) = bind-some (get_elem? path 0) _ target p in
        let ((rev, s'), _, p2) = bind-some (revert_to_block rules parent s) _ target p1 in
        let (r, run, p3) =
          bind-some (apply_until_block rules fork valid_signatures pb s') _ target p2 in
        (
          s',
          with_reverted-IsTip reverted rev applied s' s'' r
              (λ before x e. apply_until_block-IsTip pb before s' x (run ∙ ap (λ y. some y) e)) p3,
        )

    -- When the chain is moved to a block, either no block was applied, or the last of those that were
    -- applied is the current block.
    pub fork_blockchain-current :
        (pb : ProcessedBlock) (s : State db) (reverted applied : List ProcessedBlock)
        (s' : State db)
        → fork_blockchain rules fork valid_signatures pb s ≡ some (inr (reverted, (applied, s')))
        → (block_ids rules.crypto applied ≡ [])
          ⊎ (last_block (block_ids rules.crypto applied) ≡ some (current_block_id db s'))
    fork_blockchain-current pb s reverted applied s' h =
        let (from, tip) = fork_blockchain-IsTip pb s reverted applied s' h in
        last_block-of (current_block_id db from) (current_block_id db s')
          (block_ids rules.crypto applied) tip
