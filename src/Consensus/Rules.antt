-- ===== src/Consensus/Rules.antt =====
-- modules/consensus/block_rules.go: the earliest timestamp that the child of a block may have, with the
-- order of types/timestamp.go.
pub mod Median
use sia_prime.Prelude.{
  ltb, leb, ◌==◌, if◌then◌else◌, leb→le, ltb→lt, ==→eq, ==→ne, eq→==, Bool-cases, Option-cases,
  length, get_elem?, take, drop, replicate, All, sum_of, length-append, take-length_append,
  drop-length_append, sum_of-append, drop-append, All-append, ℕ, zero, suc, ◌+◌, ◌-◌, ◌*◌, ◌/◌, ◌%◌,
  ◌^◌, ◌≤◌, ◌<◌, inr-injective, ◌≡◌, refl, sym, ap, ◌∙◌, subst, ◌≢◌, ◌↔◌, ◌⊎◌, inl, inr, Bool, true,
  false, not, ◌&&◌, ◌||◌, Option, none, some, some-injective, List, [], ◌∷◌, ◌++◌, map, append-nil,
  append_assoc, arith,
}
use sia_prime.Types.Data.{
  Currency, Hash, BlockHeight, SiaPublicKey, UnlockConditions, SiacoinInput, SiacoinOutput,
  SiafundInput, SiafundOutput, FileContract, FileContractRevision, StorageProof, CoveredFields,
  TransactionSignature, Transaction, Block, BlockHeader,
}
use sia_prime.Consensus.Bolt.{Bolt, IsLawful, SameBucket}
use sia_prime.Consensus.Data.{
  DiffDirection, diff_apply, diff_revert, SiacoinOutputDiff, FileContractDiff, SiafundOutputDiff,
  DelayedSiacoinOutputDiff, SiafundPoolDiff, ProcessedBlock, Contracts, State,
}
use sia_prime.Consensus.Panic.{
  ◌>>=◌, pure, bind-some, is_some, none-some, loop, loop_down, try_loop, try_loop_down,
  try_loop_from, if-ap, if-==, ==-refl, if-if-==, if-if,
}

abbrev pub median_timestamp_window : ℕ
median_timestamp_window = 11

-- What `sort.Sort` makes of a TimestampSlice: the same timestamps in order.
unfoldable pub insert_timestamp : ℕ → List ℕ → List ℕ
insert_timestamp t [] = t ∷ []
insert_timestamp t (u ∷ us) =
    let rest = insert_timestamp t us in if leb t u then t ∷ u ∷ us else u ∷ rest

unfoldable pub sort_timestamps : List ℕ → List ℕ
unfolding insert_timestamp
sort_timestamps [] = []
sort_timestamps (t ∷ ts) = insert_timestamp t (sort_timestamps ts)

module _ (db : Bolt) where
  -- The timestamps before a block, given its parent, its own timestamp and how many are left: from the
  -- genesis block on, the last one again. A parent that is missing is a panic.
  unfoldable pub parent_times : db.Bucket ProcessedBlock → ℕ → Hash → ℕ → Option (List ℕ)
  parent_times block_map zero parent time = some []
  parent_times block_map (suc left) parent time = elim (parent == 0) [
    | true ↦ parent_times block_map left parent time >>= λ times. some (time ∷ times)
    | false ↦ db.get parent block_map >>= λ p.
        parent_times block_map left p.block.parent_id p.block.timestamp >>= λ times.
        some (p.block.timestamp ∷ times)
  ]

  unfoldable pub window_times : db.Bucket ProcessedBlock → ProcessedBlock → Option (List ℕ)
  window_times block_map pb =
      parent_times block_map (median_timestamp_window - 1) pb.block.parent_id pb.block.timestamp
      >>= λ times. some (pb.block.timestamp ∷ times)

  unfoldable pub minimum_valid_child_timestamp :
      db.Bucket ProcessedBlock → ProcessedBlock → Option ℕ
  minimum_valid_child_timestamp block_map pb = window_times block_map pb >>= λ times.
      get_elem? (sort_timestamps times) (length (sort_timestamps times) / 2)
