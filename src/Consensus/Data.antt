-- ===== src/Consensus/Data.antt =====
-- The diffs of modules/consensus.go, `processedBlock` of modules/consensus/processedblock.go, and
-- the buckets of modules/consensus/consensusdb.go, as one state.
use sia_prime.Prelude.{ℕ, Bool, true, false, List}
use sia_prime.Types.Data.{
  Currency, Hash, BlockHeight, SiacoinOutput, SiafundOutput, FileContract, Block,
}
use sia_prime.Consensus.Bolt.{Bolt}

-- DiffApply is true, DiffRevert is false.
abbrev pub DiffDirection : Type 0
DiffDirection = Bool

abbrev pub diff_apply : DiffDirection
diff_apply = true

abbrev pub diff_revert : DiffDirection
diff_revert = false

pub record SiacoinOutputDiff : Type 0 where
  pub direction : DiffDirection
  pub id : Hash
  pub siacoin_output : SiacoinOutput

pub record FileContractDiff : Type 0 where
  pub direction : DiffDirection
  pub id : Hash
  pub file_contract : FileContract

pub record SiafundOutputDiff : Type 0 where
  pub direction : DiffDirection
  pub id : Hash
  pub siafund_output : SiafundOutput

pub record DelayedSiacoinOutputDiff : Type 0 where
  pub direction : DiffDirection
  pub id : Hash
  pub siacoin_output : SiacoinOutput
  pub maturity_height : BlockHeight

pub record SiafundPoolDiff : Type 0 where
  pub direction : DiffDirection
  pub previous : Currency
  pub adjusted : Currency

-- The checksum, which only debug builds set, is left out.
pub record ProcessedBlock : Type 0 where
  pub block : Block
  pub height : BlockHeight
  pub depth : ℕ
  pub child_target : ℕ
  pub diffs_generated : Bool
  pub siacoin_output_diffs : List SiacoinOutputDiff
  pub file_contract_diffs : List FileContractDiff
  pub siafund_output_diffs : List SiafundOutputDiff
  pub delayed_siacoin_output_diffs : List DelayedSiacoinOutputDiff
  pub siafund_pool_diffs : List SiafundPoolDiff

-- The contracts, and for each height the ids of those that expire there: the buckets "fcex_".
pub record Contracts (db : Bolt) : Type 0 where
  pub file_contracts : db.Bucket FileContract
  pub expirations : db.Bucket (db.Bucket Unit)

-- A nested map of buckets stands for the buckets whose names are a prefix and a height.
pub record State (db : Bolt) : Type 0 where
  pub block_height : BlockHeight
  pub block_path : db.Bucket Hash
  pub block_map : db.Bucket ProcessedBlock
  pub siacoin_outputs : db.Bucket SiacoinOutput
  pub contracts : Contracts db
  pub siafund_outputs : db.Bucket SiafundOutput
  pub siafund_pool : Currency
  pub delayed_outputs : db.Bucket (db.Bucket SiacoinOutput)
