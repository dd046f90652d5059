-- ===== src/Types/Marshal/Decode.antt =====
-- The `UnmarshalSia` methods of types/encoding.go. The first argument of `read_slice` is the size of
-- an element in memory, `unsafe.Sizeof`, on a 64-bit machine: 8 bytes for a word, 24 for a slice
-- header, 32 for a `big.Int`.
use sia_prime.Prelude.{ℕ, List, [], ◌∷◌, Bool, ◌==◌}
use sia_prime.Prelude.Bytes.{of_be, of_le}
use sia_prime.Encoding.Decoder.{
  Decoder, ◌>>=◌, pure, read_full, next_uint64, read_prefix, read_slice,
}
use sia_prime.Types.Data.{
  Hash, SiaPublicKey, UnlockConditions, SiacoinInput, SiacoinOutput, SiafundInput, SiafundOutput,
  FileContract, FileContractRevision, StorageProof, CoveredFields, TransactionSignature,
  Transaction, Block,
}
use sia_prime.Types.Marshal.Currency.{unmarshal_currency}

unfoldable pub read_hash : Decoder Hash
read_hash = do bs ← read_full 32; pure (of_be bs)

unfoldable pub read_specifier : Decoder ℕ
read_specifier = do bs ← read_full 16; pure (of_be bs)

unfoldable pub unmarshal_public_key : Decoder SiaPublicKey
unmarshal_public_key = do
  algorithm ← read_specifier
  key ← read_prefix
  pure (record { algorithm = algorithm; key = key })

unfoldable pub unmarshal_unlock_conditions : Decoder UnlockConditions
unmarshal_unlock_conditions = do
  timelock ← next_uint64
  keys ← read_slice 40 unmarshal_public_key
  required ← next_uint64
  pure (record { timelock = timelock; public_keys = keys; signatures_required = required })

unfoldable pub unmarshal_siacoin_input : Decoder SiacoinInput
unmarshal_siacoin_input = do
  parent ← read_hash
  uc ← unmarshal_unlock_conditions
  pure (record { parent_id = parent; unlock_conditions = uc })

unfoldable pub unmarshal_siacoin_output : Decoder SiacoinOutput
unmarshal_siacoin_output = do
  value ← unmarshal_currency
  hash ← read_hash
  pure (record { value = value; unlock_hash = hash })

unfoldable pub unmarshal_siafund_input : Decoder SiafundInput
unmarshal_siafund_input = do
  parent ← read_hash
  uc ← unmarshal_unlock_conditions
  claim ← read_hash
  pure (record { parent_id = parent; unlock_conditions = uc; claim_unlock_hash = claim })

unfoldable pub unmarshal_siafund_output : Decoder SiafundOutput
unmarshal_siafund_output = do
  value ← unmarshal_currency
  hash ← read_hash
  claim ← unmarshal_currency
  pure (record { value = value; unlock_hash = hash; claim_start = claim })

unfoldable pub unmarshal_file_contract : Decoder FileContract
unmarshal_file_contract = do
  size ← next_uint64
  root ← read_hash
  start ← next_uint64
  end ← next_uint64
  payout ← unmarshal_currency
  valid ← read_slice 64 unmarshal_siacoin_output
  missed ← read_slice 64 unmarshal_siacoin_output
  hash ← read_hash
  number ← next_uint64
  pure (record {
    file_size = size;
    file_merkle_root = root;
    window_start = start;
    window_end = end;
    payout = payout;
    valid_proof_outputs = valid;
    missed_proof_outputs = missed;
    unlock_hash = hash;
    revision_number = number;
  })

unfoldable pub unmarshal_file_contract_revision : Decoder FileContractRevision
unmarshal_file_contract_revision = do
  parent ← read_hash
  uc ← unmarshal_unlock_conditions
  number ← next_uint64
  size ← next_uint64
  root ← read_hash
  start ← next_uint64
  end ← next_uint64
  valid ← read_slice 64 unmarshal_siacoin_output
  missed ← read_slice 64 unmarshal_siacoin_output
  hash ← read_hash
  pure (record {
    parent_id = parent;
    unlock_conditions = uc;
    new_revision_number = number;
    new_file_size = size;
    new_file_merkle_root = root;
    new_window_start = start;
    new_window_end = end;
    new_valid_proof_outputs = valid;
    new_missed_proof_outputs = missed;
    new_unlock_hash = hash;
  })

unfoldable pub unmarshal_storage_proof : Decoder StorageProof
unmarshal_storage_proof = do
  parent ← read_hash
  segment ← read_full 64
  hashes ← read_slice 32 read_hash
  pure (record { parent_id = parent; segment = segment; hash_set = hashes })

-- `buf[0] == 1`
unfoldable pub first_is_one : List ℕ → Bool
first_is_one [] = 0 == 1
first_is_one (b ∷ bs) = b == 1

unfoldable pub read_bool : Decoder Bool
read_bool = do bs ← read_full 1; pure (first_is_one bs)

unfoldable pub unmarshal_covered_fields : Decoder CoveredFields
unmarshal_covered_fields = do
  whole ← read_bool
  sci ← read_slice 8 next_uint64
  sco ← read_slice 8 next_uint64
  fc ← read_slice 8 next_uint64
  fcr ← read_slice 8 next_uint64
  sp ← read_slice 8 next_uint64
  sfi ← read_slice 8 next_uint64
  sfo ← read_slice 8 next_uint64
  fees ← read_slice 8 next_uint64
  arb ← read_slice 8 next_uint64
  sigs ← read_slice 8 next_uint64
  pure (record {
    whole_transaction = whole;
    siacoin_inputs = sci;
    siacoin_outputs = sco;
    file_contracts = fc;
    file_contract_revisions = fcr;
    storage_proofs = sp;
    siafund_inputs = sfi;
    siafund_outputs = sfo;
    miner_fees = fees;
    arbitrary_data = arb;
    transaction_signatures = sigs;
  })

unfoldable pub unmarshal_transaction_signature : Decoder TransactionSignature
unmarshal_transaction_signature = do
  parent ← read_hash
  index ← next_uint64
  timelock ← next_uint64
  fields ← unmarshal_covered_fields
  signature ← read_prefix
  pure (record {
    parent_id = parent;
    public_key_index = index;
    timelock = timelock;
    covered_fields = fields;
    signature = signature;
  })

unfoldable pub unmarshal_transaction : Decoder Transaction
unmarshal_transaction = do
  sci ← read_slice 72 unmarshal_siacoin_input
  sco ← read_slice 64 unmarshal_siacoin_output
  fc ← read_slice 176 unmarshal_file_contract
  fcr ← read_slice 216 unmarshal_file_contract_revision
  sp ← read_slice 120 unmarshal_storage_proof
  sfi ← read_slice 104 unmarshal_siafund_input
  sfo ← read_slice 96 unmarshal_siafund_output
  fees ← read_slice 32 unmarshal_currency
  arb ← read_slice 24 read_prefix
  sigs ← read_slice 320 unmarshal_transaction_signature
  pure (record {
    siacoin_inputs = sci;
    siacoin_outputs = sco;
    file_contracts = fc;
    file_contract_revisions = fcr;
    storage_proofs = sp;
    siafund_inputs = sfi;
    siafund_outputs = sfo;
    miner_fees = fees;
    arbitrary_data = arb;
    transaction_signatures = sigs;
  })

-- The nonce's 8 bytes are read as they stand.
unfoldable pub read_nonce : Decoder ℕ
read_nonce = do bs ← read_full 8; pure (of_le bs)

unfoldable pub unmarshal_block : Decoder Block
unmarshal_block = do
  parent ← read_hash
  nonce ← read_nonce
  timestamp ← next_uint64
  payouts ← read_slice 64 unmarshal_siacoin_output
  txns ← read_slice 240 unmarshal_transaction
  pure (record {
    parent_id = parent;
    nonce = nonce;
    timestamp = timestamp;
    miner_payouts = payouts;
    transactions = txns;
  })
