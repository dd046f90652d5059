-- ===== src/Types/Marshal/RoundTrip/Whole.antt =====
-- The round trips of a transaction and of a block.
use sia_prime.Prelude.{append_assoc, ℕ, subst, length, List, ◌++◌, ◌+◌, ◌≤◌, ◌≡◌}
use sia_prime.Encoding.Decoder.{max_object_size, ok}
use sia_prime.Prelude.Bytes.{le_bytes, of_le, of_le-le_bytes, length-le_bytes}
use sia_prime.Encoding.Decoder.Laws.{
  Decodes, Decodes-bind, Decodes-map, Decodes-read_full, Decodes-next_uint64, SliceFits,
}
use sia_prime.Types.Data.{Transaction, Block}
use sia_prime.Types.Marshal.Currency.{CurrencyFits, Decodes-unmarshal_currency}
use sia_prime.Types.Marshal.Encode.{marshal_no_signatures, marshal_transaction, marshal_block}
use sia_prime.Types.Marshal.Decode.{unmarshal_transaction, read_nonce, unmarshal_block}
use sia_prime.Types.Marshal.RoundTrip.Parts.{
  IsUint64, IsHash, ListFits, SiacoinInputFits, SiafundInputFits, SiafundOutputFits,
  SiacoinOutputFits, Decodes-read_hash, Decodes-write_prefix, Decodes-write_slice,
  Decodes-siacoin_output, Decodes-siacoin_input, Decodes-siafund_input, Decodes-siafund_output,
}
use sia_prime.Types.Marshal.RoundTrip.Contracts.{
  FileContractFits, FileContractRevisionFits, StorageProofFits, TransactionSignatureFits,
  Decodes-file_contract, Decodes-file_contract_revision, Decodes-storage_proof,
  Decodes-transaction_signature,
}

abbrev pub TransactionFits : Transaction → Type 0
TransactionFits t =
    ListFits 72 SiacoinInputFits t.siacoin_inputs
    × ListFits 64 SiacoinOutputFits t.siacoin_outputs
    × ListFits 176 FileContractFits t.file_contracts
    × ListFits 216 FileContractRevisionFits t.file_contract_revisions
    × ListFits 120 StorageProofFits t.storage_proofs
    × ListFits 104 SiafundInputFits t.siafund_inputs
    × ListFits 96 SiafundOutputFits t.siafund_outputs
    × ListFits 32 CurrencyFits t.miner_fees
    × ListFits 24 (λ bs. SliceFits 1 (length bs)) t.arbitrary_data
    × ListFits 320 TransactionSignatureFits t.transaction_signatures

pub Decodes-transaction :
    (t : Transaction) → TransactionFits t → Decodes (marshal_transaction t) unmarshal_transaction t
unfolding marshal_transaction marshal_no_signatures unmarshal_transaction
Decodes-transaction t h = simp append_assoc (
    Decodes-bind _ (Decodes-write_slice Decodes-siacoin_input 72 t.siacoin_inputs h.0) (
      Decodes-bind _ (Decodes-write_slice Decodes-siacoin_output 64 t.siacoin_outputs h.1) (
        Decodes-bind _ (Decodes-write_slice Decodes-file_contract 176 t.file_contracts h.2) (
          Decodes-bind _
            (Decodes-write_slice Decodes-file_contract_revision 216 t.file_contract_revisions h.3)
            (Decodes-bind _ (Decodes-write_slice Decodes-storage_proof 120 t.storage_proofs h.4) (
              Decodes-bind _ (Decodes-write_slice Decodes-siafund_input 104 t.siafund_inputs h.5) (
                Decodes-bind _ (Decodes-write_slice Decodes-siafund_output 96 t.siafund_outputs h.6)
                  (Decodes-bind _
                    (Decodes-write_slice Decodes-unmarshal_currency 32 t.miner_fees h.7)
                    (Decodes-bind _
                      (Decodes-write_slice Decodes-write_prefix 24 t.arbitrary_data h.8)
                      (Decodes-map _ (
                        Decodes-write_slice Decodes-transaction_signature 320
                          t.transaction_signatures h.9)))))))))))

Decodes-read_nonce : (n : ℕ) → IsUint64 n → Decodes (le_bytes 8 n) read_nonce n
unfolding read_nonce
Decodes-read_nonce n h =
    subst (Decodes (le_bytes 8 n) _) (of_le-le_bytes 8 n h)
      (Decodes-map of_le (Decodes-read_full 8 (le_bytes 8 n) (length-le_bytes 8 n)))

abbrev pub BlockFits : Block → Type 0
BlockFits b =
    IsHash b.parent_id
    × IsUint64 b.nonce
    × IsUint64 b.timestamp
    × ListFits 64 SiacoinOutputFits b.miner_payouts
    × ListFits 240 TransactionFits b.transactions

pub Decodes-block : (b : Block) → BlockFits b → Decodes (marshal_block b) unmarshal_block b
unfolding marshal_block unmarshal_block
Decodes-block b h = Decodes-bind _ (Decodes-read_hash b.parent_id h.0) (
    Decodes-bind _ (Decodes-read_nonce b.nonce h.1) (
      Decodes-bind _ (Decodes-next_uint64 b.timestamp h.2) (
        Decodes-bind _ (Decodes-write_slice Decodes-siacoin_output 64 b.miner_payouts h.3)
          (Decodes-map _ (Decodes-write_slice Decodes-transaction 240 b.transactions h.4)))))

-- A transaction whose fields fit their machine types and the decoder's limits, marshalled in front of
-- any bytes, unmarshals to itself and leaves those bytes, where the decoder's count of what it has
-- read stays within the limit on an object.
pub unmarshal_transaction-marshal_transaction :
    (t : Transaction) (rest : List ℕ) (n : ℕ)
    → TransactionFits t
    → n + length (marshal_transaction t) ≤ max_object_size
    → unmarshal_transaction (record { input = marshal_transaction t ++ rest; n = n })
      ≡ ok t (record { input = rest; n = n + length (marshal_transaction t) })
unmarshal_transaction-marshal_transaction t rest n fits bound =
    (Decodes-transaction t fits).at rest n bound

-- A block whose fields fit their machine types and the decoder's limits, marshalled in front of any
-- bytes, unmarshals to itself and leaves those bytes, where the decoder's count of what it has read
-- stays within the limit on an object.
pub unmarshal_block-marshal_block :
    (b : Block) (rest : List ℕ) (n : ℕ)
    → BlockFits b
    → n + length (marshal_block b) ≤ max_object_size
    → unmarshal_block (record { input = marshal_block b ++ rest; n = n })
      ≡ ok b (record { input = rest; n = n + length (marshal_block b) })
unmarshal_block-marshal_block b rest n fits bound = (Decodes-block b fits).at rest n bound
