-- ===== src/Consensus/Fork/Invalid.antt =====
-- modules/consensus/fork.go: a block on the way to a fork is not valid.
use sia_prime.Prelude.{
  if◌then◌else◌, Bool-cases, drop, inl-injective, ◌≡◌, refl, sym, ap, ◌∙◌, subst, ◌⊎◌, inl, inr,
  Bool, true, false, Option, some, some-injective, List, [], ◌∷◌, ◌++◌, arith,
}
use sia_prime.Types.Data.{BlockHeight, Transaction}
use sia_prime.Types.Ids.{block_id}
use sia_prime.Types.Outcome.{Outcome}
use sia_prime.Consensus.Bolt.{Bolt}
use sia_prime.Consensus.Data.{ProcessedBlock, State}
use sia_prime.Consensus.Panic.{bind-some}
use sia_prime.Consensus.Diffs.{commit_diff_set}
use sia_prime.Consensus.Apply.{Work, Rules}
use sia_prime.Consensus.Validity.{ConsensusError}
use sia_prime.Consensus.Generate.{SiafundFork, generate_and_apply_diff}
use sia_prime.Consensus.Fork.{
  InvalidBlock, backtrack_to_current_path, first_applied, with_applied, apply_known_block,
  apply_new_block, apply_block, apply_blocks, apply_until_block,
}

module _ {db : Bolt} (rules : Rules) (fork : SiafundFork)
    (valid_signatures : BlockHeight → Transaction → Outcome) where
  -- What an error of `applyUntilBlock` says of the blocks that it was to apply to a state: those
  -- before some block are applied, with the state that they give, and the diffs of this block, which
  -- had none, are refused there.
  pub record StopsAt (pbs : List ProcessedBlock) (s : State db) (invalid : InvalidBlock)
      : Type 0 where
    pub before : List ProcessedBlock
    pub refused : ProcessedBlock
    pub after : List ProcessedBlock
    pub applied : List ProcessedBlock
    pub there : State db
    pub split : pbs ≡ before ++ (refused ∷ after)
    pub before_applied :
        apply_blocks rules fork valid_signatures before s ≡ some (inr (applied, there))
    pub no_diffs : refused.diffs_generated ≡ false
    pub refusal :
        generate_and_apply_diff rules fork valid_signatures (record { pb = refused; tx = there })
        ≡ some (inl invalid.reason)
    pub marked : invalid.dos_block ≡ block_id rules.crypto refused.block

  first_applied-inl :
      (r : ConsensusError ⊎ Work db) (e : ConsensusError)
      → some (first_applied r) ≡ some (inl e)
      → r ≡ inl e
  first_applied-inl (inl e') e h = ap (λ x. inl x) (inl-injective _ _ (some-injective _ _ h))
  first_applied-inl (inr w) e h = absurd (ground arith)

  with_applied-inl :
      (pb : ProcessedBlock) (r : InvalidBlock ⊎ List ProcessedBlock × State db)
      (invalid : InvalidBlock)
      → some (with_applied pb r) ≡ some (inl invalid)
      → r ≡ inl invalid
  with_applied-inl pb (inl e') e h = ap (λ x. inl x) (inl-injective _ _ (some-injective _ _ h))
  with_applied-inl pb (inr (applied, s)) e h = absurd (ground arith)

  -- Which of the two ways a block is applied.
  pub apply_block-cases :
      (pb : ProcessedBlock) (s : State db)
      → ((pb.diffs_generated ≡ true)
          × (apply_block rules fork valid_signatures pb s ≡ apply_known_block rules pb s))
        ⊎ ((pb.diffs_generated ≡ false)
            × (apply_block rules fork valid_signatures pb s
                ≡ apply_new_block rules fork valid_signatures pb s))
  unfolding apply_block
  apply_block-cases pb s =
      let way : Bool → Option (ConsensusError ⊎ ProcessedBlock × State db) = λ b.
        if b
        then apply_known_block rules pb s
        else apply_new_block rules fork valid_signatures pb s in
      elim (Bool-cases pb.diffs_generated) [
        | inl known ↦ inl (known, ap way known)
        | inr new ↦ inr (new, ap way new)
      ]

  apply_block-refused :
      (pb : ProcessedBlock) (s : State db) (e : ConsensusError)
      → apply_block rules fork valid_signatures pb s ≡ some (inl e)
      → (pb.diffs_generated ≡ false)
        × (generate_and_apply_diff rules fork valid_signatures (record { pb = pb; tx = s })
            ≡ some (inl e))
  unfolding apply_known_block apply_new_block
  apply_block-refused pb s e h = elim (apply_block-cases pb s) [
    | inl (known, way) ↦
        let (s', _, p) =
          bind-some (commit_diff_set db rules.network true (block_id rules.crypto pb.block) pb s) _
            (inl e) (sym way ∙ h) in
        absurd (ground arith)
    | inr (new, way) ↦
        let (r, run, p) =
          bind-some
            (generate_and_apply_diff rules fork valid_signatures (record { pb = pb; tx = s })) _
            (inl e) (sym way ∙ h) in
        (new, run ∙ ap (λ x. some x) (first_applied-inl r e p))
  ]

  StopsAt-first :
      (pb : ProcessedBlock) (pbs : List ProcessedBlock) (s : State db) (e : ConsensusError)
      → apply_block rules fork valid_signatures pb s ≡ some (inl e)
      → StopsAt (pb ∷ pbs) s (record { dos_block = block_id rules.crypto pb.block; reason = e })
  unfolding apply_blocks
  StopsAt-first pb pbs s e h =
      let (new, refused) = apply_block-refused pb s e h in
      record {
        before = [];
        refused = pb;
        after = pbs;
        applied = [];
        there = s;
        split = refl;
        before_applied = refl;
        no_diffs = new;
        refusal = refused;
        marked = refl;
      }

  StopsAt-later :
      (pb pb' : ProcessedBlock) (pbs : List ProcessedBlock) (s s' : State db)
      (invalid : InvalidBlock)
      → apply_block rules fork valid_signatures pb s ≡ some (inr (pb', s'))
      → StopsAt pbs s' invalid
      → StopsAt (pb ∷ pbs) s invalid
  unfolding apply_blocks
  StopsAt-later pb pb' pbs s s' invalid run stop = record {
    before = pb ∷ stop.before;
    refused = stop.refused;
    after = stop.after;
    applied = pb' ∷ stop.applied;
    there = stop.there;
    split = ap (λ x. pb ∷ x) stop.split;
    before_applied = rw (apply_blocks, run, stop.before_applied) refl;
    no_diffs = stop.no_diffs;
    refusal = stop.refusal;
    marked = stop.marked;
  }

  -- The rest of the loop, after the first block's turn.
  turn-StopsAt :
      (pb : ProcessedBlock) (pbs : List ProcessedBlock) (s : State db) (invalid : InvalidBlock)
      (r : ConsensusError ⊎ ProcessedBlock × State db)
      → apply_block rules fork valid_signatures pb s ≡ some r
      → ((s' : State db)
          → apply_blocks rules fork valid_signatures pbs s' ≡ some (inl invalid)
          → StopsAt pbs s' invalid)
      → apply_blocks rules fork valid_signatures (pb ∷ pbs) s ≡ some (inl invalid)
      → StopsAt (pb ∷ pbs) s invalid
  unfolding apply_blocks
  turn-StopsAt pb pbs s invalid (inl e) run later h =
      subst (StopsAt (pb ∷ pbs) s)
        (inl-injective _ _ (some-injective _ _ (rw (apply_blocks, run) at h)))
        (StopsAt-first pb pbs s e run)
  turn-StopsAt pb pbs s invalid (inr (pb', s')) run later h =
      let (r, rest, p) =
        bind-some (apply_blocks rules fork valid_signatures pbs s') _ (inl invalid)
          (rw (apply_blocks, run) at h) in
      StopsAt-later pb pb' pbs s s' invalid run
        (later s' (rest ∙ ap (λ x. some x) (with_applied-inl pb' r invalid p)))

  apply_blocks-StopsAt :
      (pbs : List ProcessedBlock) (s : State db) (invalid : InvalidBlock)
      → apply_blocks rules fork valid_signatures pbs s ≡ some (inl invalid)
      → StopsAt pbs s invalid
  unfolding apply_blocks
  apply_blocks-StopsAt [] s invalid h = absurd (ground arith)
  apply_blocks-StopsAt (pb ∷ pbs) s invalid h =
      let (r, run, _) =
        bind-some (apply_block rules fork valid_signatures pb s) _ (inl invalid) h in
      turn-StopsAt pb pbs s invalid r run (λ s'. apply_blocks-StopsAt pbs s' invalid) h

  -- When `applyUntilBlock` ends with an invalid block, then the blocks on the way to its block after
  -- the one on the path split in three: those before, which it applies, a block without diffs, whose
  -- diffs are refused in the state that these leave, with the error that is returned, and the rest.
  -- The id to be refused from then on is the one of that block.
  pub apply_until_block-StopsAt :
      (pb : ProcessedBlock) (s : State db) (invalid : InvalidBlock)
      → apply_until_block rules fork valid_signatures pb s ≡ some (inl invalid)
      → (path : List ProcessedBlock) × (backtrack_to_current_path rules s pb ≡ some path)
        × StopsAt (drop 1 path) s invalid
  unfolding apply_until_block
  apply_until_block-StopsAt pb s invalid h =
      let (path, run, p) = bind-some (backtrack_to_current_path rules s pb) _ (inl invalid) h in
      (path, run, apply_blocks-StopsAt (drop 1 path) s invalid p)
