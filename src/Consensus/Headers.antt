-- ===== src/Consensus/Headers.antt =====
-- modules/consensus/accept.go: the checks of a header or a block before it joins the tree. `none` is a
-- panic.
use sia_prime.Prelude.{
  ltb, ◌==◌, if◌then◌else◌, ℕ, ◌%◌, ◌⊎◌, inl, inr, Bool, true, false, not, ◌&&◌, ◌||◌, Option, none,
  some, List, [], ◌∷◌,
}
use sia_prime.Types.Data.{Hash, Block, BlockHeader}
use sia_prime.Types.Network.{add64}
use sia_prime.Types.Ids.{header_id}
use sia_prime.Consensus.Bolt.{Bolt}
use sia_prime.Consensus.Data.{ProcessedBlock, State}
use sia_prime.Consensus.Panic.{◌>>=◌}
use sia_prime.Consensus.Database.{get_block_map}
use sia_prime.Consensus.Apply.{Rules}
use sia_prime.Consensus.Validity.{ConsensusError}
use sia_prime.Consensus.Blocks.{
  BlockError, early_timestamp, nonce_requirements, block_unsolved, extreme_future_timestamp,
  asic_hardfork_factor, check_target, validate_block,
}
use sia_prime.Consensus.Rules.{minimum_valid_child_timestamp}
use sia_prime.Consensus.Difficulty.{BlockTotals}
use sia_prime.Consensus.ChangeLog.{ChangeLog}

pub data AcceptError : Type 0 where
  dos_block_error block_known orphan non_linear_chain non_extending_block : AcceptError
  log_error fewer_applied : AcceptError
  block_error : BlockError → AcceptError
  consensus_error : ConsensusError → AcceptError

-- The consensus set: the ids of known invalid blocks, and the database.
pub record ConsensusSet (db : Bolt) : Type 0 where
  pub dos_blocks : List Hash
  pub tx : State db
  pub oak : db.Bucket BlockTotals
  pub change_log : ChangeLog db

unfoldable pub is_dos_block : Hash → List Hash → Bool
is_dos_block id [] = false
is_dos_block id (known ∷ ids) = (known == id) || is_dos_block id ids

module _ {db : Bolt} (rules : Rules) (now : ℕ) where
  -- The checks against the parent.
  unfoldable pub validate_child :
      State db → Block → Hash → ProcessedBlock → Option (AcceptError ⊎ ProcessedBlock)
  validate_child s b id parent =
      minimum_valid_child_timestamp db s.block_map parent >>= λ min_timestamp.
      elim (validate_block rules.network now b id min_timestamp parent.child_target
        (add64 parent.height 1)) [ none ↦ some (inr parent) | some e ↦ some (inl (block_error e)) ]

  unfoldable pub validate_header_and_block :
      ConsensusSet db → Block → Hash → Option (AcceptError ⊎ ProcessedBlock)
  validate_header_and_block cs b id = elim (is_dos_block id cs.dos_blocks) [
    | true ↦ some (inl dos_block_error)
    | false ↦ elim (get_block_map db id cs.tx) [
      | some known ↦ some (inl block_known)
      | none ↦ elim (get_block_map db b.parent_id cs.tx) [
        | none ↦ some (inl orphan)
        | some parent ↦ validate_child cs.tx b id parent
      ]
    ]
  ]

  -- The checks of a header against the parent.
  unfoldable pub validate_header_child :
      State db → BlockHeader → ProcessedBlock → Option (Option AcceptError)
  validate_header_child s h parent =
      let id = header_id rules.crypto h in
      let nonce_refused =
        ltb rules.network.asic_hardfork_height parent.height
        && not (h.nonce % asic_hardfork_factor == 0) in
      let timed = minimum_valid_child_timestamp db s.block_map parent >>= λ min_timestamp. some (
        if ltb h.timestamp min_timestamp
        then some (block_error early_timestamp)
        else if ltb (add64 now rules.network.extreme_future_threshold) h.timestamp
        then some (block_error extreme_future_timestamp)
        else none) in
      if nonce_refused
      then some (some (block_error nonce_requirements))
      else if not (check_target id parent.child_target)
      then some (some (block_error block_unsolved))
      else timed

  unfoldable pub validate_header : ConsensusSet db → BlockHeader → Option (Option AcceptError)
  validate_header cs h = elim (is_dos_block (header_id rules.crypto h) cs.dos_blocks) [
    | true ↦ some (some dos_block_error)
    | false ↦ elim (get_block_map db (header_id rules.crypto h) cs.tx) [
      | some known ↦ some (some block_known)
      | none ↦ elim (get_block_map db h.parent_id cs.tx) [
        | none ↦ some (some orphan)
        | some parent ↦ validate_header_child cs.tx h parent
      ]
    ]
  ]
