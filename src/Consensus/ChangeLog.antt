-- ===== src/Consensus/ChangeLog.antt =====
-- modules/consensus/changelog.go: the list of changes in the database. `none` is an error of decoding.
pub mod Chain
pub mod Entries
use sia_prime.Prelude.{
  ltb, leb, ◌==◌, if◌then◌else◌, leb→le, ltb→lt, ==→eq, ==→ne, eq→==, Bool-cases, Option-cases,
  length, get_elem?, take, drop, replicate, All, sum_of, length-append, take-length_append,
  drop-length_append, sum_of-append, drop-append, All-append, All-map, ℕ, zero, suc, ◌+◌, ◌-◌, ◌*◌,
  ◌/◌, ◌%◌, ◌^◌, ◌≤◌, ◌<◌, inl-injective, inr-injective, ◌≡◌, refl, sym, ap, ◌∙◌, subst, ◌≢◌, ◌↔◌,
  ◌⊎◌, inl, inr, Bool, true, false, not, ◌&&◌, ◌||◌, Option, none, some, some-injective, List, [],
  ◌∷◌, ◌++◌, map, append-nil, append_assoc, arith,
}
use sia_prime.Types.Data.{
  Currency, Hash, BlockHeight, SiaPublicKey, UnlockConditions, SiacoinInput, SiacoinOutput,
  SiafundInput, SiafundOutput, FileContract, FileContractRevision, StorageProof, CoveredFields,
  TransactionSignature, Transaction, Block, BlockHeader,
}
use sia_prime.Types.Ids.{
  Crypto, specifier_siacoin_output, specifier_file_contract, specifier_siafund_output,
  specifier_storage_proof_output, transaction_id, siacoin_output_id, file_contract_id,
  siafund_output_id, sia_claim_output_id, storage_proof_output_id, merkle_leaves, header, header_id,
  block_id, miner_payout_id, unlock_hash,
}
use sia_prime.Types.Marshal.Encode.{
  write_hash, write_specifier, write_prefix, write_slice, marshal_public_key,
  marshal_unlock_conditions, marshal_siacoin_input, marshal_siacoin_output, marshal_siafund_input,
  marshal_siafund_output, marshal_file_contract, marshal_file_contract_revision,
  marshal_storage_proof, write_bool, marshal_covered_fields, marshal_transaction_signature,
  marshal_no_signatures, marshal_transaction, marshal_block,
}
use sia_prime.Consensus.Bolt.{Bolt, IsLawful, SameBucket}
use sia_prime.Consensus.Panic.{
  ◌>>=◌, pure, bind-some, is_some, none-some, loop, loop_down, try_loop, try_loop_down,
  try_loop_from, if-ap, if-==, ==-refl, if-if-==, if-if,
}

pub record ChangeEntry : Type 0 where
  pub reverted_blocks : List Hash
  pub applied_blocks : List Hash

pub record ChangeNode : Type 0 where
  pub entry : ChangeEntry
  pub next : Hash

-- The bucket holds the nodes by the ids of their entries, and the id of the tail by a key of its own.
pub record ChangeLog (db : Bolt) : Type 0 where
  pub nodes : db.Bucket ChangeNode
  pub tail_id : Option Hash

-- A pointer is encoded as a byte that says that it is not nil, and then what it points to.
unfoldable pub entry_id : Crypto → ChangeEntry → Hash
entry_id crypto ce =
    crypto.blake2b
      (1 ∷ (write_slice write_hash ce.reverted_blocks ++ write_slice write_hash ce.applied_blocks))

unfoldable pub genesis_entry : Crypto → Block → ChangeEntry
genesis_entry crypto root = record {
  reverted_blocks = [];
  applied_blocks = block_id crypto root ∷ [];
}

-- A key that is missing is copied as zeros.
abbrev pub or_zero_id : Option Hash → Hash
or_zero_id none = 0
or_zero_id (some id) = id

-- The old tail points to a new one.
unfoldable pub link_tail :
    (db : Bolt) → Hash → Hash → db.Bucket ChangeNode → Option (db.Bucket ChangeNode)
link_tail db tail id nodes = db.get tail nodes >>= λ node.
    some (db.put tail (record { entry = node.entry; next = id }) nodes)

module _ {db : Bolt} (crypto : Crypto) where
  unfoldable pub append_change_log : ChangeEntry → ChangeLog db → Option (ChangeLog db)
  append_change_log ce log =
      let id = entry_id crypto ce in
      let nodes = db.put id (record { entry = ce; next = 0 }) log.nodes in
      let tail = or_zero_id log.tail_id in
      elim (tail == 0) [
        | true ↦ some (record { nodes = nodes; tail_id = some id })
        | false ↦ link_tail db tail id nodes >>= λ linked.
            some (record { nodes = linked; tail_id = some id })
      ]

  unfoldable pub get_entry : Hash → ChangeLog db → Option ChangeEntry
  get_entry id log = db.get id log.nodes >>= λ cn. some cn.entry

  -- A node that is missing reads as one that points to the zero id.
  unfoldable pub next_entry : ChangeEntry → ChangeLog db → Option ChangeEntry
  next_entry ce log = elim (db.get (entry_id crypto ce) log.nodes) [
    | none ↦ get_entry 0 log
    | some cn ↦ get_entry cn.next log
  ]

  unfoldable pub create_change_log : Block → ChangeLog db
  create_change_log root =
      let ge = genesis_entry crypto root in
      record {
        nodes = db.put (entry_id crypto ge) (record { entry = ge; next = 0 }) db.empty;
        tail_id = some (entry_id crypto ge);
      }
