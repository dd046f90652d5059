-- ===== src/Consensus/Fork/Revert.antt =====
-- modules/consensus/fork.go: blocks are reverted down to an earlier one.
use sia_prime.Prelude.{
  ◌==◌, if◌then◌else◌, eq→==, length, ℕ, zero, suc, ◌+◌, ◌^◌, ◌≤◌, ◌<◌, ◌≡◌, refl, sym, ap, ◌∙◌,
  subst, true, false, none, some, some-injective, List, [], ◌∷◌, arith,
}
use sia_prime.Types.Data.{Hash}
use sia_prime.Types.Network.{Network, add64}
use sia_prime.Types.Ids.{block_id}
use sia_prime.Consensus.Bolt.{Bolt, IsLawful}
use sia_prime.Consensus.Data.{ProcessedBlock, State}
use sia_prime.Consensus.Panic.{==-refl}
use sia_prime.Consensus.Database.{
  get_path, current_block_id, get_block_map, current_processed_block, push_path,
}
use sia_prime.Consensus.Diffs.{update_current_path, commit_diff_set}
use sia_prime.Consensus.Apply.{Rules}
use sia_prime.Consensus.Fork.{revert_loop, revert_to_block}
use sia_prime.Consensus.Diffs.Same.{SameState, FitsBlock}
use sia_prime.Consensus.Diffs.Restore.{FitsBlock-runs, SameState-undo, refl-SameState}

-- The states that applying blocks can reach from a state whose current block is the target: the blocks
-- with the last one first. Each fits the state that it is applied to, whose map has it.
pub data Applied {db : Bolt} (rules : Rules) (target : Hash) (from : State db)
    : List ProcessedBlock → State db → Type 0 where
  target_reached :
      (s : State db) → s ≡ from → current_block_id db from ≡ target → Applied rules target from [] s
  block_applied :
      (pbs : List ProcessedBlock) (s s' : State db) (pb : ProcessedBlock)
      → Applied rules target from pbs s
      → FitsBlock db rules.network pb s
      → s.block_height + 1 < 2 ^ 64
      → get_block_map db (block_id rules.crypto pb.block) s ≡ some pb
      → (block_id rules.crypto pb.block == target) ≡ false
      → commit_diff_set db rules.network true (block_id rules.crypto pb.block) pb s ≡ some s'
      → Applied rules target from (pb ∷ pbs) s'

module _ {db : Bolt} (law : IsLawful db) where
  -- What applying a block makes of the height, the current block and the block map.
  commit_diff_set-joins :
      (net : Network) (bid : Hash) (pb : ProcessedBlock) (s s' : State db)
      → FitsBlock db net pb s
      → commit_diff_set db net true bid pb s ≡ some s'
      → (s'.block_height ≡ add64 s.block_height 1)
        × (current_block_id db s' ≡ bid)
        × (s'.block_map ≡ s.block_map)
  unfolding update_current_path push_path current_block_id get_path
  commit_diff_set-joins net bid pb s s' fit run =
      let (c, d, _, _, run') = FitsBlock-runs db law net bid pb s fit in
      let top = add64 s.block_height 1 in
      let found : db.get top (db.put top bid s.block_path) ≡ some bid =
        law.get-put top top bid s.block_path
        ∙ ap (λ b. if b then some bid else db.get top s.block_path) (==-refl top) in
      subst
        (λ x.
          (x.block_height ≡ add64 s.block_height 1)
          × (current_block_id db x ≡ bid)
          × (x.block_map ≡ s.block_map))
        (some-injective _ _ (sym run' ∙ run))
        (refl, ap (λ r. elim r [ none ↦ 0 | some id ↦ id ]) found, refl)

  current_block_id-same :
      (s s' : State db) → SameState db s s' → current_block_id db s ≡ current_block_id db s'
  unfolding current_block_id get_path
  current_block_id-same s s' same =
      ap (λ r. elim r [ none ↦ 0 | some id ↦ id ])
        (ap (λ h. db.get h s.block_path) same.same_height ∙ same.same_path s'.block_height)

  module _ (rules : Rules) (target : Hash) (from : State db) where
    length-Applied :
        (pbs : List ProcessedBlock) (s : State db)
        → Applied rules target from pbs s
        → length pbs ≤ s.block_height
    length-Applied pbs s (target_reached _ same at) = omega arith
    length-Applied pbs s (block_applied rest before _ pb a fit small there other run) =
        let (height, _, _) =
          commit_diff_set-joins rules.network (block_id rules.crypto pb.block) pb before s fit
            run in
        let shorter = length-Applied rest before a in
        let up : add64 before.block_height 1 ≡ before.block_height + 1 = omega arith in
        rw (height, up) (omega arith)

    revert_loop-Applied :
        (pbs : List ProcessedBlock) (s : State db)
        → Applied rules target from pbs s
        → (rounds : ℕ) (s' : State db) → length pbs < rounds
        → SameState db s' s
        → (s'' : State db) × (revert_loop rules rounds target s' ≡ some (pbs, s''))
          × SameState db s'' from
    unfolding revert_loop current_processed_block get_block_map
    revert_loop-Applied pbs s (target_reached _ here at) zero s' enough same = absurd (omega arith)
    revert_loop-Applied pbs s (target_reached _ here at) (suc rounds) s' enough same =
        let back = subst (SameState db s') here same in
        let e : (current_block_id db s' == target) ≡ true =
          eq→== (current_block_id db s') target (current_block_id-same s' from back ∙ at) in
        (s', rw (revert_loop, e) refl, back)
    revert_loop-Applied pbs s (block_applied blocks before _ pb a fit small there other run) zero s'
          enough same =
        absurd (omega arith)
    revert_loop-Applied pbs s (block_applied blocks before _ pb a fit small there other run)
          (suc rounds) s' enough same =
        let bid = block_id rules.crypto pb.block in
        let (_, top, block_map) = commit_diff_set-joins rules.network bid pb before s fit run in
        let at : current_block_id db s' ≡ bid = current_block_id-same s' s same ∙ top in
        let e : (current_block_id db s' == target) ≡ false = ap (λ x. x == target) at ∙ other in
        let found : current_processed_block db s' ≡ some pb =
          ap (λ x. db.get x s'.block_map) at
          ∙ same.same_block_map bid
          ∙ ap (λ m. db.get bid m) block_map
          ∙ there in
        let (s1, back, undone) =
          SameState-undo db law rules.network bid pb before s s' fit run same in
        let (s2, rest, done) = revert_loop-Applied blocks before a rounds s1 (omega arith) undone in
        (s2, rw (revert_loop, e, found, back, rest) refl, done)

    -- When blocks that fit were applied after the block with an id, none of them with that id,
    -- reverting to that block ends, gives these blocks from the last to the first, and leaves the
    -- state in which that block was the current one: the height, the path, the pool and the content
    -- of every bucket.
    pub revert_to_block-Applied :
        (parent : ProcessedBlock) (pbs : List ProcessedBlock) (s : State db)
        → target ≡ block_id rules.crypto parent.block
        → Applied rules target from pbs s
        → (s' : State db) × (revert_to_block rules parent s ≡ some (pbs, s')) × SameState db s' from
    unfolding revert_to_block
    revert_to_block-Applied parent pbs s same a =
        let long = length-Applied pbs s a in
        subst
          (λ id.
            (s' : State db) × (revert_loop rules (s.block_height + 1) id s ≡ some (pbs, s'))
            × SameState db s' from)
          same
          (revert_loop-Applied pbs s a (s.block_height + 1) s (omega arith)
            (refl-SameState db law s))
