-- ===== src/Types/Ids.antt =====
-- Ids and hashes: types/transactions.go, types/filecontracts.go, types/block.go and `UnlockHash` of
-- types/signatures.go. The hash functions are third-party packages, so they are parameters:
-- `blake2b` is `crypto.NewHash`, written to and summed, `merkle_root` is a tree of
-- gitlab.com/NebulousLabs/merkletree, pushed to and asked for its root.
use sia_prime.Prelude.{ℕ, Bool, List, [], ◌∷◌, ◌++◌, map}
use sia_prime.Prelude.Bytes.{le_bytes}
use sia_prime.Encoding.Integers.{enc_uint64}
use sia_prime.Types.Data.{Hash, UnlockConditions, Transaction, Block, BlockHeader}
use sia_prime.Types.Marshal.Encode.{
  write_hash, marshal_public_key, marshal_siacoin_output, write_bool, marshal_no_signatures,
  marshal_transaction,
}

pub record Crypto : Type 0 where
  pub blake2b : List ℕ → Hash
  pub merkle_root : List (List ℕ) → Hash
  -- Is the signature, of 64 bytes, one of the hash by the key, of 32 bytes?
  pub verify_hash : Hash → List ℕ → List ℕ → Bool
  -- base, hash set, number of segments, index, root
  pub verify_segment : List ℕ → List Hash → ℕ → ℕ → Hash → Bool

abbrev pub specifier_siacoin_output : List ℕ
specifier_siacoin_output =
    115 ∷ 105 ∷ 97 ∷ 99 ∷ 111 ∷ 105 ∷ 110 ∷ 32 ∷ 111 ∷ 117 ∷ 116 ∷ 112 ∷ 117 ∷ 116 ∷ 0 ∷ 0 ∷ []

abbrev pub specifier_file_contract : List ℕ
specifier_file_contract =
    102 ∷ 105 ∷ 108 ∷ 101 ∷ 32 ∷ 99 ∷ 111 ∷ 110 ∷ 116 ∷ 114 ∷ 97 ∷ 99 ∷ 116 ∷ 0 ∷ 0 ∷ 0 ∷ []

abbrev pub specifier_siafund_output : List ℕ
specifier_siafund_output =
    115 ∷ 105 ∷ 97 ∷ 102 ∷ 117 ∷ 110 ∷ 100 ∷ 32 ∷ 111 ∷ 117 ∷ 116 ∷ 112 ∷ 117 ∷ 116 ∷ 0 ∷ 0 ∷ []

abbrev pub specifier_storage_proof_output : List ℕ
specifier_storage_proof_output =
    115 ∷ 116 ∷ 111 ∷ 114 ∷ 97 ∷ 103 ∷ 101 ∷ 32 ∷ 112 ∷ 114 ∷ 111 ∷ 111 ∷ 102 ∷ 0 ∷ 0 ∷ 0 ∷ []

module _ (crypto : Crypto) where
  unfoldable pub transaction_id : Transaction → Hash
  transaction_id t = crypto.blake2b (marshal_no_signatures t)

  unfoldable pub siacoin_output_id : Transaction → ℕ → Hash
  siacoin_output_id t i =
      crypto.blake2b (specifier_siacoin_output ++ (marshal_no_signatures t ++ enc_uint64 i))

  unfoldable pub file_contract_id : Transaction → ℕ → Hash
  file_contract_id t i =
      crypto.blake2b (specifier_file_contract ++ (marshal_no_signatures t ++ enc_uint64 i))

  unfoldable pub siafund_output_id : Transaction → ℕ → Hash
  siafund_output_id t i =
      crypto.blake2b (specifier_siafund_output ++ (marshal_no_signatures t ++ enc_uint64 i))

  unfoldable pub sia_claim_output_id : Hash → Hash
  sia_claim_output_id id = crypto.blake2b (write_hash id)

  unfoldable pub storage_proof_output_id : Hash → Bool → ℕ → Hash
  storage_proof_output_id fcid proof_status i = crypto.blake2b (
      specifier_storage_proof_output
      ++ (write_hash fcid ++ (write_bool proof_status ++ enc_uint64 i)))

  unfoldable pub merkle_leaves : Block → List (List ℕ)
  merkle_leaves b =
      map marshal_siacoin_output b.miner_payouts ++ map marshal_transaction b.transactions

  unfoldable pub header : Block → BlockHeader
  unfolding merkle_leaves
  header b = record {
    parent_id = b.parent_id;
    nonce = b.nonce;
    timestamp = b.timestamp;
    merkle_root = crypto.merkle_root (merkle_leaves b);
  }

  -- `HashObject` of a header, whose fields the encoder writes in order.
  unfoldable pub header_id : BlockHeader → Hash
  header_id h = crypto.blake2b (
      write_hash h.parent_id
      ++ (le_bytes 8 h.nonce ++ (enc_uint64 h.timestamp ++ write_hash h.merkle_root)))

  unfoldable pub block_id : Block → Hash
  block_id b = header_id (header b)

  unfoldable pub miner_payout_id : Block → ℕ → Hash
  miner_payout_id b i = crypto.blake2b (write_hash (block_id b) ++ enc_uint64 i)

  unfoldable pub unlock_hash : UnlockConditions → Hash
  unlock_hash uc = crypto.merkle_root (
      enc_uint64 uc.timelock
      ∷ (map marshal_public_key uc.public_keys ++ (enc_uint64 uc.signatures_required ∷ [])))
