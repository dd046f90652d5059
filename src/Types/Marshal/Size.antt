-- ===== src/Types/Marshal/Size.antt =====
-- The `MarshalSiaSize` methods of types/encoding.go.
pub mod Laws
use sia_prime.Prelude.{ℕ, ◌+◌, ◌*◌, List, [], ◌∷◌, length, sum_of}
use sia_prime.Types.Data.{
  SiaPublicKey, UnlockConditions, SiacoinInput, SiacoinOutput, SiafundInput, SiafundOutput,
  FileContract, FileContractRevision, StorageProof, CoveredFields, TransactionSignature,
  Transaction,
}
use sia_prime.Types.Marshal.Currency.{currency_size}

-- The loop body for a public key inside `UnlockConditions.MarshalSiaSize`.
unfoldable pub public_key_size : SiaPublicKey → ℕ
public_key_size spk = 16 + (8 + length spk.key)

unfoldable pub unlock_conditions_size : UnlockConditions → ℕ
unlock_conditions_size uc = 8 + 8 + sum_of public_key_size uc.public_keys + 8

-- The loop body for an output, of a contract, a revision or a transaction.
unfoldable pub siacoin_output_size : SiacoinOutput → ℕ
siacoin_output_size sco = currency_size sco.value + 32

unfoldable pub file_contract_size : FileContract → ℕ
file_contract_size fc =
    8
    + 32
    + (8 + 8)
    + currency_size fc.payout
    + 8
    + sum_of siacoin_output_size fc.valid_proof_outputs
    + 8
    + sum_of siacoin_output_size fc.missed_proof_outputs
    + 32
    + 8

unfoldable pub file_contract_revision_size : FileContractRevision → ℕ
file_contract_revision_size fcr =
    32
    + unlock_conditions_size fcr.unlock_conditions
    + 8
    + 8
    + 32
    + (8 + 8)
    + 8
    + sum_of siacoin_output_size fcr.new_valid_proof_outputs
    + 8
    + sum_of siacoin_output_size fcr.new_missed_proof_outputs
    + 32

unfoldable pub covered_fields_size : CoveredFields → ℕ
covered_fields_size cf =
    1
    + (8 + length cf.siacoin_inputs * 8)
    + (8 + length cf.siacoin_outputs * 8)
    + (8 + length cf.file_contracts * 8)
    + (8 + length cf.file_contract_revisions * 8)
    + (8 + length cf.storage_proofs * 8)
    + (8 + length cf.siafund_inputs * 8)
    + (8 + length cf.siafund_outputs * 8)
    + (8 + length cf.miner_fees * 8)
    + (8 + length cf.arbitrary_data * 8)
    + (8 + length cf.transaction_signatures * 8)

-- The bodies of the loops of `Transaction.MarshalSiaSize`.
unfoldable pub siacoin_input_size : SiacoinInput → ℕ
siacoin_input_size sci = 32 + unlock_conditions_size sci.unlock_conditions

unfoldable pub storage_proof_size : StorageProof → ℕ
storage_proof_size sp = 32 + 64 + (8 + length sp.hash_set * 32)

unfoldable pub siafund_input_size : SiafundInput → ℕ
siafund_input_size sfi = 32 + 32 + unlock_conditions_size sfi.unlock_conditions

unfoldable pub siafund_output_size : SiafundOutput → ℕ
siafund_output_size sfo = currency_size sfo.value + 32 + currency_size sfo.claim_start

unfoldable pub arbitrary_data_size : List ℕ → ℕ
arbitrary_data_size d = 8 + length d

unfoldable pub transaction_signature_size : TransactionSignature → ℕ
transaction_signature_size ts =
    32 + 8 + 8 + covered_fields_size ts.covered_fields + (8 + length ts.signature)

unfoldable pub transaction_size : Transaction → ℕ
transaction_size t =
    8
    + sum_of siacoin_input_size t.siacoin_inputs
    + 8
    + sum_of siacoin_output_size t.siacoin_outputs
    + 8
    + sum_of file_contract_size t.file_contracts
    + 8
    + sum_of file_contract_revision_size t.file_contract_revisions
    + 8
    + sum_of storage_proof_size t.storage_proofs
    + 8
    + sum_of siafund_input_size t.siafund_inputs
    + 8
    + sum_of siafund_output_size t.siafund_outputs
    + 8
    + sum_of currency_size t.miner_fees
    + 8
    + sum_of arbitrary_data_size t.arbitrary_data
    + 8
    + sum_of transaction_signature_size t.transaction_signatures
