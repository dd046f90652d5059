-- ===== src/Types/Marshal/Encode.antt =====
-- The `MarshalSia` methods of types/encoding.go, as the bytes that they write. `encHelper` stops at
-- the first error of its writer; the writers here are buffers and hashes, which never fail.
use sia_prime.Prelude.{ℕ, List, [], ◌∷◌, ◌++◌, Bool, length, if◌then◌else◌}
use sia_prime.Prelude.Bytes.{be_bytes, le_bytes}
use sia_prime.Encoding.Integers.{enc_uint64}
use sia_prime.Encoding.Decoder.Laws.{concat_map}
use sia_prime.Types.Data.{
  Hash, SiaPublicKey, UnlockConditions, SiacoinInput, SiacoinOutput, SiafundInput, SiafundOutput,
  FileContract, FileContractRevision, StorageProof, CoveredFields, TransactionSignature,
  Transaction, Block,
}
use sia_prime.Types.Marshal.Currency.{marshal_currency}

-- `e.Write(h[:])` of a 32-byte array.
unfoldable pub write_hash : Hash → List ℕ
write_hash h = be_bytes 32 h

-- `e.Write(s[:])` of a 16-byte specifier.
unfoldable pub write_specifier : ℕ → List ℕ
write_specifier s = be_bytes 16 s

-- `e.WriteInt(len(p))` and `e.Write(p)`.
unfoldable pub write_prefix : List ℕ → List ℕ
write_prefix p = enc_uint64 (length p) ++ p

-- `e.WriteInt(len(xs))`, and the loop that marshals the elements.
unfoldable pub write_slice {ℓ} : {A : Type ℓ} → (A → List ℕ) → List A → List ℕ
write_slice f xs = enc_uint64 (length xs) ++ concat_map f xs

unfoldable pub marshal_public_key : SiaPublicKey → List ℕ
marshal_public_key spk = write_specifier spk.algorithm ++ write_prefix spk.key

unfoldable pub marshal_unlock_conditions : UnlockConditions → List ℕ
marshal_unlock_conditions uc =
    enc_uint64 uc.timelock
    ++ (write_slice marshal_public_key uc.public_keys ++ enc_uint64 uc.signatures_required)

unfoldable pub marshal_siacoin_input : SiacoinInput → List ℕ
marshal_siacoin_input sci =
    write_hash sci.parent_id ++ marshal_unlock_conditions sci.unlock_conditions

unfoldable pub marshal_siacoin_output : SiacoinOutput → List ℕ
marshal_siacoin_output sco = marshal_currency sco.value ++ write_hash sco.unlock_hash

unfoldable pub marshal_siafund_input : SiafundInput → List ℕ
marshal_siafund_input sfi =
    write_hash sfi.parent_id
    ++ (marshal_unlock_conditions sfi.unlock_conditions ++ write_hash sfi.claim_unlock_hash)

unfoldable pub marshal_siafund_output : SiafundOutput → List ℕ
marshal_siafund_output sfo =
    marshal_currency sfo.value ++ (write_hash sfo.unlock_hash ++ marshal_currency sfo.claim_start)

unfoldable pub marshal_file_contract : FileContract → List ℕ
marshal_file_contract fc =
    enc_uint64 fc.file_size
    ++ (write_hash fc.file_merkle_root
        ++ (enc_uint64 fc.window_start
            ++ (enc_uint64 fc.window_end
                ++ (marshal_currency fc.payout
                    ++ (write_slice marshal_siacoin_output fc.valid_proof_outputs
                        ++ (write_slice marshal_siacoin_output fc.missed_proof_outputs
                            ++ (write_hash fc.unlock_hash ++ enc_uint64 fc.revision_number)))))))

unfoldable pub marshal_file_contract_revision : FileContractRevision → List ℕ
marshal_file_contract_revision fcr =
    write_hash fcr.parent_id
    ++ (marshal_unlock_conditions fcr.unlock_conditions
        ++ (enc_uint64 fcr.new_revision_number
            ++ (enc_uint64 fcr.new_file_size
                ++ (write_hash fcr.new_file_merkle_root
                    ++ (enc_uint64 fcr.new_window_start
                        ++ (enc_uint64 fcr.new_window_end
                            ++ (write_slice marshal_siacoin_output fcr.new_valid_proof_outputs
                                ++ (write_slice marshal_siacoin_output fcr.new_missed_proof_outputs
                                    ++ write_hash fcr.new_unlock_hash))))))))

unfoldable pub marshal_storage_proof : StorageProof → List ℕ
marshal_storage_proof sp =
    write_hash sp.parent_id ++ (sp.segment ++ write_slice write_hash sp.hash_set)

-- The byte for `WholeTransaction`.
unfoldable pub write_bool : Bool → List ℕ
write_bool b = (if b then 1 else 0) ∷ []

unfoldable pub marshal_covered_fields : CoveredFields → List ℕ
marshal_covered_fields cf =
    write_bool cf.whole_transaction
    ++ (write_slice enc_uint64 cf.siacoin_inputs
        ++ (write_slice enc_uint64 cf.siacoin_outputs
            ++ (write_slice enc_uint64 cf.file_contracts
                ++ (write_slice enc_uint64 cf.file_contract_revisions
                    ++ (write_slice enc_uint64 cf.storage_proofs
                        ++ (write_slice enc_uint64 cf.siafund_inputs
                            ++ (write_slice enc_uint64 cf.siafund_outputs
                                ++ (write_slice enc_uint64 cf.miner_fees
                                    ++ (write_slice enc_uint64 cf.arbitrary_data
                                        ++ write_slice enc_uint64 cf.transaction_signatures)))))))))

unfoldable pub marshal_transaction_signature : TransactionSignature → List ℕ
marshal_transaction_signature ts =
    write_hash ts.parent_id
    ++ (enc_uint64 ts.public_key_index
        ++ (enc_uint64 ts.timelock
            ++ (marshal_covered_fields ts.covered_fields ++ write_prefix ts.signature)))

unfoldable pub marshal_no_signatures : Transaction → List ℕ
marshal_no_signatures t =
    write_slice marshal_siacoin_input t.siacoin_inputs
    ++ (write_slice marshal_siacoin_output t.siacoin_outputs
        ++ (write_slice marshal_file_contract t.file_contracts
            ++ (write_slice marshal_file_contract_revision t.file_contract_revisions
                ++ (write_slice marshal_storage_proof t.storage_proofs
                    ++ (write_slice marshal_siafund_input t.siafund_inputs
                        ++ (write_slice marshal_siafund_output t.siafund_outputs
                            ++ (write_slice marshal_currency t.miner_fees
                                ++ write_slice write_prefix t.arbitrary_data)))))))

unfoldable pub marshal_transaction : Transaction → List ℕ
marshal_transaction t =
    marshal_no_signatures t ++ write_slice marshal_transaction_signature t.transaction_signatures

-- A nonce is the number that its bytes spell from the least significant one.
unfoldable pub marshal_block : Block → List ℕ
marshal_block b =
    write_hash b.parent_id
    ++ (le_bytes 8 b.nonce
        ++ (enc_uint64 b.timestamp
            ++ (write_slice marshal_siacoin_output b.miner_payouts
                ++ write_slice marshal_transaction b.transactions)))
