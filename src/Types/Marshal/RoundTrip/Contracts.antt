-- ===== src/Types/Marshal/RoundTrip/Contracts.antt =====
-- The round trips of file contracts, revisions, storage proofs and signatures.
use sia_prime.Prelude.{◌≡◌, refl, Bool, true, false, [], ◌∷◌, length}
use sia_prime.Encoding.Decoder.Laws.{
  Decodes, Decodes-bind, Decodes-map, Decodes-read_full, Decodes-next_uint64, SliceFits,
}
use sia_prime.Types.Data.{
  FileContract, FileContractRevision, StorageProof, CoveredFields, TransactionSignature,
}
use sia_prime.Types.Marshal.Currency.{CurrencyFits, Decodes-unmarshal_currency}
use sia_prime.Types.Marshal.Encode.{
  write_bool, marshal_file_contract, marshal_file_contract_revision, marshal_storage_proof,
  marshal_covered_fields, marshal_transaction_signature,
}
use sia_prime.Types.Marshal.Decode.{
  first_is_one, read_bool, unmarshal_file_contract, unmarshal_file_contract_revision,
  unmarshal_storage_proof, unmarshal_covered_fields, unmarshal_transaction_signature,
}
use sia_prime.Types.Marshal.RoundTrip.Parts.{
  IsUint64, IsHash, ListFits, UnlockConditionsFit, SiacoinOutputFits, Decodes-read_hash,
  Decodes-write_prefix, Decodes-write_slice, Decodes-unlock_conditions, Decodes-siacoin_output,
}

abbrev pub FileContractFits : FileContract → Type 0
FileContractFits fc =
    IsUint64 fc.file_size
    × IsHash fc.file_merkle_root
    × IsUint64 fc.window_start
    × IsUint64 fc.window_end
    × CurrencyFits fc.payout
    × ListFits 64 SiacoinOutputFits fc.valid_proof_outputs
    × ListFits 64 SiacoinOutputFits fc.missed_proof_outputs
    × IsHash fc.unlock_hash
    × IsUint64 fc.revision_number

pub Decodes-file_contract :
    (fc : FileContract)
    → FileContractFits fc
    → Decodes (marshal_file_contract fc) unmarshal_file_contract fc
unfolding marshal_file_contract unmarshal_file_contract
Decodes-file_contract fc h = Decodes-bind _ (Decodes-next_uint64 fc.file_size h.0) (
    Decodes-bind _ (Decodes-read_hash fc.file_merkle_root h.1) (
      Decodes-bind _ (Decodes-next_uint64 fc.window_start h.2) (
        Decodes-bind _ (Decodes-next_uint64 fc.window_end h.3) (
          Decodes-bind _ (Decodes-unmarshal_currency fc.payout h.4) (
            Decodes-bind _
              (Decodes-write_slice Decodes-siacoin_output 64 fc.valid_proof_outputs h.5)
              (Decodes-bind _
                (Decodes-write_slice Decodes-siacoin_output 64 fc.missed_proof_outputs h.6)
                (Decodes-bind _ (Decodes-read_hash fc.unlock_hash h.7)
                  (Decodes-map _ (Decodes-next_uint64 fc.revision_number h.8)))))))))

abbrev pub FileContractRevisionFits : FileContractRevision → Type 0
FileContractRevisionFits fcr =
    IsHash fcr.parent_id
    × UnlockConditionsFit fcr.unlock_conditions
    × IsUint64 fcr.new_revision_number
    × IsUint64 fcr.new_file_size
    × IsHash fcr.new_file_merkle_root
    × IsUint64 fcr.new_window_start
    × IsUint64 fcr.new_window_end
    × ListFits 64 SiacoinOutputFits fcr.new_valid_proof_outputs
    × ListFits 64 SiacoinOutputFits fcr.new_missed_proof_outputs
    × IsHash fcr.new_unlock_hash

pub Decodes-file_contract_revision :
    (fcr : FileContractRevision)
    → FileContractRevisionFits fcr
    → Decodes (marshal_file_contract_revision fcr) unmarshal_file_contract_revision fcr
unfolding marshal_file_contract_revision unmarshal_file_contract_revision
Decodes-file_contract_revision fcr h = Decodes-bind _ (Decodes-read_hash fcr.parent_id h.0) (
    Decodes-bind _ (Decodes-unlock_conditions fcr.unlock_conditions h.1) (
      Decodes-bind _ (Decodes-next_uint64 fcr.new_revision_number h.2) (
        Decodes-bind _ (Decodes-next_uint64 fcr.new_file_size h.3) (
          Decodes-bind _ (Decodes-read_hash fcr.new_file_merkle_root h.4) (
            Decodes-bind _ (Decodes-next_uint64 fcr.new_window_start h.5) (
              Decodes-bind _ (Decodes-next_uint64 fcr.new_window_end h.6) (
                Decodes-bind _
                  (Decodes-write_slice Decodes-siacoin_output 64 fcr.new_valid_proof_outputs h.7)
                  (Decodes-bind _
                    (Decodes-write_slice Decodes-siacoin_output 64 fcr.new_missed_proof_outputs h.8)
                    (Decodes-map _ (Decodes-read_hash fcr.new_unlock_hash h.9))))))))))

abbrev pub StorageProofFits : StorageProof → Type 0
StorageProofFits sp =
    IsHash sp.parent_id × (length sp.segment ≡ 64) × ListFits 32 IsHash sp.hash_set

pub Decodes-storage_proof :
    (sp : StorageProof)
    → StorageProofFits sp
    → Decodes (marshal_storage_proof sp) unmarshal_storage_proof sp
unfolding marshal_storage_proof unmarshal_storage_proof
Decodes-storage_proof sp h = Decodes-bind _ (Decodes-read_hash sp.parent_id h.0) (
    Decodes-bind _ (Decodes-read_full 64 sp.segment h.1)
      (Decodes-map _ (Decodes-write_slice Decodes-read_hash 32 sp.hash_set h.2)))

Decodes-read_bool : (b : Bool) → Decodes (write_bool b) read_bool b
unfolding write_bool read_bool first_is_one
Decodes-read_bool true = Decodes-map first_is_one (Decodes-read_full 1 (1 ∷ []) refl)
Decodes-read_bool false = Decodes-map first_is_one (Decodes-read_full 1 (0 ∷ []) refl)

abbrev pub CoveredFieldsFit : CoveredFields → Type 0
CoveredFieldsFit cf =
    ListFits 8 IsUint64 cf.siacoin_inputs
    × ListFits 8 IsUint64 cf.siacoin_outputs
    × ListFits 8 IsUint64 cf.file_contracts
    × ListFits 8 IsUint64 cf.file_contract_revisions
    × ListFits 8 IsUint64 cf.storage_proofs
    × ListFits 8 IsUint64 cf.siafund_inputs
    × ListFits 8 IsUint64 cf.siafund_outputs
    × ListFits 8 IsUint64 cf.miner_fees
    × ListFits 8 IsUint64 cf.arbitrary_data
    × ListFits 8 IsUint64 cf.transaction_signatures

Decodes-covered_fields :
    (cf : CoveredFields)
    → CoveredFieldsFit cf
    → Decodes (marshal_covered_fields cf) unmarshal_covered_fields cf
unfolding marshal_covered_fields unmarshal_covered_fields
Decodes-covered_fields cf h = Decodes-bind _ (Decodes-read_bool cf.whole_transaction) (
    Decodes-bind _ (Decodes-write_slice Decodes-next_uint64 8 cf.siacoin_inputs h.0) (
      Decodes-bind _ (Decodes-write_slice Decodes-next_uint64 8 cf.siacoin_outputs h.1) (
        Decodes-bind _ (Decodes-write_slice Decodes-next_uint64 8 cf.file_contracts h.2) (
          Decodes-bind _ (Decodes-write_slice Decodes-next_uint64 8 cf.file_contract_revisions h.3)
            (Decodes-bind _ (Decodes-write_slice Decodes-next_uint64 8 cf.storage_proofs h.4) (
              Decodes-bind _ (Decodes-write_slice Decodes-next_uint64 8 cf.siafund_inputs h.5) (
                Decodes-bind _ (Decodes-write_slice Decodes-next_uint64 8 cf.siafund_outputs h.6) (
                  Decodes-bind _ (Decodes-write_slice Decodes-next_uint64 8 cf.miner_fees h.7) (
                    Decodes-bind _ (Decodes-write_slice Decodes-next_uint64 8 cf.arbitrary_data h.8)
                      (Decodes-map _ (
                        Decodes-write_slice Decodes-next_uint64 8 cf.transaction_signatures
                          h.9)))))))))))

abbrev pub TransactionSignatureFits : TransactionSignature → Type 0
TransactionSignatureFits ts =
    IsHash ts.parent_id
    × IsUint64 ts.public_key_index
    × IsUint64 ts.timelock
    × CoveredFieldsFit ts.covered_fields
    × SliceFits 1 (length ts.signature)

pub Decodes-transaction_signature :
    (ts : TransactionSignature)
    → TransactionSignatureFits ts
    → Decodes (marshal_transaction_signature ts) unmarshal_transaction_signature ts
unfolding marshal_transaction_signature unmarshal_transaction_signature
Decodes-transaction_signature ts h = Decodes-bind _ (Decodes-read_hash ts.parent_id h.0) (
    Decodes-bind _ (Decodes-next_uint64 ts.public_key_index h.1) (
      Decodes-bind _ (Decodes-next_uint64 ts.timelock h.2) (
        Decodes-bind _ (Decodes-covered_fields ts.covered_fields h.3)
          (Decodes-map _ (Decodes-write_prefix ts.signature h.4)))))
