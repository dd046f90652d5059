-- ===== src/Consensus/Fork/Branch.antt =====
-- modules/consensus/fork.go: the blocks that lead from the current path to a block.
use sia_prime.Prelude.{
  Bool-cases, ℕ, zero, suc, ◌+◌, ◌<◌, ◌≡◌, refl, inl, inr, true, false, some, List, [], ◌∷◌, arith,
}
use sia_prime.Types.Data.{Hash}
use sia_prime.Consensus.Bolt.{Bolt}
use sia_prime.Consensus.Data.{ProcessedBlock, State}
use sia_prime.Consensus.Database.{get_block_map}
use sia_prime.Consensus.Apply.{Rules}
use sia_prime.Consensus.Fork.{is_on_path, backtrack, backtrack_to_current_path}

module _ {db : Bolt} (rules : Rules) (s : State db) where
  -- Each block off the path has its parent in the block map, one height below.
  pub record HasParents : Type 0 where
    pub has_parent :
        (id : Hash) (pb : ProcessedBlock)
        → get_block_map db id s ≡ some pb
        → is_on_path rules s pb ≡ false
        → (parent : ProcessedBlock) × (get_block_map db pb.block.parent_id s ≡ some parent)
          × (parent.height + 1 ≡ pb.height)

  -- From a block to the last: each is off the path, and the one before is its parent.
  abbrev pub LeadsTo : ProcessedBlock → List ProcessedBlock → ProcessedBlock → Type 0
  LeadsTo pb [] last = pb ≡ last
  LeadsTo parent (pb ∷ pbs) last =
      (is_on_path rules s pb ≡ false)
      × (get_block_map db pb.block.parent_id s ≡ some parent)
      × LeadsTo pb pbs last

  backtrack-LeadsTo :
      HasParents
      → (rounds : ℕ) (id : Hash) (pb : ProcessedBlock) (pbs : List ProcessedBlock)
        (last : ProcessedBlock)
      → get_block_map db id s ≡ some pb
      → pb.height < rounds
      → LeadsTo pb pbs last
      → (parent : ProcessedBlock) × (rest : List ProcessedBlock) × (backtrack rules s rounds pb
            (pb ∷ pbs)
          ≡ some (parent ∷ rest))
        × (is_on_path rules s parent ≡ true)
        × LeadsTo parent rest last
  unfolding backtrack
  backtrack-LeadsTo tree zero id pb pbs last there enough leads = absurd (omega arith)
  backtrack-LeadsTo tree (suc rounds) id pb pbs last there enough leads =
      elim (Bool-cases (is_on_path rules s pb)) [
        | inl e ↦ (pb, pbs, rw (backtrack, e) refl, e, leads)
        | inr e ↦
            let (parent, found, below) = tree.has_parent id pb there e in
            let (first, rest, run, on, path) =
              backtrack-LeadsTo tree rounds pb.block.parent_id parent (pb ∷ pbs) last found
                (omega arith) (e, found, leads) in
            (first, rest, rw (backtrack, e, found) run, on, path)
      ]

  -- When each block off the path has its parent in the block map, one height below, then for a block
  -- of the map the search ends: it gives a first block that is on the path and after it the blocks
  -- off the path, each the child of the one before, up to the block.
  pub backtrack_to_current_path-LeadsTo :
      HasParents
      → (id : Hash) (pb : ProcessedBlock) → get_block_map db id s ≡ some pb
      → (parent : ProcessedBlock) × (rest : List ProcessedBlock) × (backtrack_to_current_path rules
            s pb
          ≡ some (parent ∷ rest))
        × (is_on_path rules s parent ≡ true)
        × LeadsTo parent rest pb
  unfolding backtrack_to_current_path
  backtrack_to_current_path-LeadsTo tree id pb there =
      backtrack-LeadsTo tree (pb.height + 1) id pb [] pb there (omega arith) refl
