-- ===== src/Types/Marshal/Size/Laws.antt =====
-- The sizes are the lengths of the encodings.
use sia_prime.Prelude.{
  ℕ, ◌+◌, ◌*◌, ◌≡◌, refl, List, [], ◌∷◌, arith, length, length-append, sum_of, All,
}
use sia_prime.Prelude.Bytes.{length-be_bytes}
use sia_prime.Encoding.Integers.{enc_uint64, length-enc_uint64}
use sia_prime.Encoding.Decoder.Laws.{concat_map}
use sia_prime.Types.Data.{
  Hash, SiaPublicKey, UnlockConditions, SiacoinInput, SiacoinOutput, SiafundInput, SiafundOutput,
  FileContract, FileContractRevision, StorageProof, CoveredFields, TransactionSignature,
  Transaction,
}
use sia_prime.Types.Marshal.Currency.{marshal_currency, length-marshal_currency}
use sia_prime.Types.Marshal.Encode.{
  write_hash, write_specifier, write_prefix, write_slice, write_bool, marshal_public_key,
  marshal_unlock_conditions, marshal_siacoin_input, marshal_siacoin_output, marshal_siafund_input,
  marshal_siafund_output, marshal_file_contract, marshal_file_contract_revision,
  marshal_storage_proof, marshal_covered_fields, marshal_transaction_signature,
  marshal_no_signatures, marshal_transaction,
}
use sia_prime.Types.Marshal.Size.{
  public_key_size, unlock_conditions_size, siacoin_output_size, file_contract_size,
  file_contract_revision_size, covered_fields_size, siacoin_input_size, storage_proof_size,
  siafund_input_size, siafund_output_size, arbitrary_data_size, transaction_signature_size,
  transaction_size,
}

pub length-write_hash : (h : Hash) → length (write_hash h) ≡ 32
unfolding write_hash
length-write_hash h = length-be_bytes 32 h

length-write_specifier : (s : ℕ) → length (write_specifier s) ≡ 16
unfolding write_specifier
length-write_specifier s = length-be_bytes 16 s

length-write_prefix : (p : List ℕ) → length (write_prefix p) ≡ 8 + length p
unfolding write_prefix
length-write_prefix p =
    omega (arith, length-append (enc_uint64 (length p)) p, length-enc_uint64 (length p))

module _ {ℓ} {A : Type ℓ} (f : A → List ℕ) (size : A → ℕ) (P : A → Type 0)
    (each : (x : A) → P x → length (f x) ≡ size x) where
  length-concat_map : (xs : List A) → All P xs → length (concat_map f xs) ≡ sum_of size xs
  unfolding concat_map
  length-concat_map [] h = refl
  length-concat_map (x ∷ xs) h =
      omega (arith, length-append (f x) (concat_map f xs), each x h.0, length-concat_map xs h.1)

  length-write_slice : (xs : List A) → All P xs → length (write_slice f xs) ≡ 8 + sum_of size xs
  unfolding write_slice
  length-write_slice xs h = omega (
    arith,
    length-append (enc_uint64 (length xs)) (concat_map f xs),
    length-enc_uint64 (length xs),
    length-concat_map xs h,
  )

length-write_slice_all {ℓ} :
    {A : Type ℓ} (f : A → List ℕ) (size : A → ℕ)
    → ((x : A) → length (f x) ≡ size x)
    → (xs : List A) → length (write_slice f xs) ≡ 8 + sum_of size xs
length-write_slice_all {A} f size each xs =
    length-write_slice f size (λ _. Unit {0}) (λ x _. each x) xs (All-Unit xs)
  where
    All-Unit : (ys : List A) → All (λ _. Unit {0}) ys
    All-Unit [] = tt
    All-Unit (y ∷ ys) = (tt, All-Unit ys)

length-concat_uint64 : (xs : List ℕ) → length (concat_map enc_uint64 xs) ≡ length xs * 8
unfolding concat_map
length-concat_uint64 [] = refl
length-concat_uint64 (x ∷ xs) = omega (
  arith,
  length-append (enc_uint64 x) (concat_map enc_uint64 xs),
  length-enc_uint64 x,
  length-concat_uint64 xs,
)

length-write_uint64s : (xs : List ℕ) → length (write_slice enc_uint64 xs) ≡ 8 + length xs * 8
unfolding write_slice
length-write_uint64s xs = omega (
  arith,
  length-append (enc_uint64 (length xs)) (concat_map enc_uint64 xs),
  length-enc_uint64 (length xs),
  length-concat_uint64 xs,
)

length-concat_hash : (xs : List Hash) → length (concat_map write_hash xs) ≡ length xs * 32
unfolding concat_map
length-concat_hash [] = refl
length-concat_hash (x ∷ xs) = omega (
  arith,
  length-append (write_hash x) (concat_map write_hash xs),
  length-write_hash x,
  length-concat_hash xs,
)

length-write_hashes : (xs : List Hash) → length (write_slice write_hash xs) ≡ 8 + length xs * 32
unfolding write_slice
length-write_hashes xs = omega (
  arith,
  length-append (enc_uint64 (length xs)) (concat_map write_hash xs),
  length-enc_uint64 (length xs),
  length-concat_hash xs,
)

length-public_key : (spk : SiaPublicKey) → length (marshal_public_key spk) ≡ public_key_size spk
unfolding marshal_public_key public_key_size
length-public_key spk =
    omega
      (arith, length-append {0}, length-write_specifier spk.algorithm, length-write_prefix spk.key)

length-unlock_conditions :
    (uc : UnlockConditions) → length (marshal_unlock_conditions uc) ≡ unlock_conditions_size uc
unfolding marshal_unlock_conditions unlock_conditions_size
length-unlock_conditions uc = omega (
  arith,
  length-append {0},
  length-enc_uint64,
  length-write_slice_all marshal_public_key public_key_size length-public_key uc.public_keys,
)

length-siacoin_output :
    (sco : SiacoinOutput) → length (marshal_siacoin_output sco) ≡ siacoin_output_size sco
unfolding marshal_siacoin_output siacoin_output_size
length-siacoin_output sco =
    omega (arith, length-append {0}, length-marshal_currency, length-write_hash)

length-siacoin_outputs :
    (xs : List SiacoinOutput)
    → length (write_slice marshal_siacoin_output xs) ≡ 8 + sum_of siacoin_output_size xs
length-siacoin_outputs =
    length-write_slice_all marshal_siacoin_output siacoin_output_size length-siacoin_output

ruleset sizes = (
  arith, length-enc_uint64, length-write_hash, length-marshal_currency, length-unlock_conditions,
  length-siacoin_outputs, length-write_prefix, length-write_uint64s, length-write_hashes,
)

pub length-file_contract :
    (fc : FileContract) → length (marshal_file_contract fc) ≡ file_contract_size fc
unfolding marshal_file_contract file_contract_size
length-file_contract fc = omega (sizes, length-append {0})

length-file_contract_revision :
    (fcr : FileContractRevision)
    → length (marshal_file_contract_revision fcr) ≡ file_contract_revision_size fcr
unfolding marshal_file_contract_revision file_contract_revision_size
length-file_contract_revision fcr = omega (sizes, length-append {0})

length-write_bool : (cf : CoveredFields) → length (write_bool cf.whole_transaction) ≡ 1
unfolding write_bool
length-write_bool cf = refl

length-covered_fields :
    (cf : CoveredFields) → length (marshal_covered_fields cf) ≡ covered_fields_size cf
unfolding marshal_covered_fields covered_fields_size
length-covered_fields cf = omega (sizes, length-append {0}, length-write_bool cf)

length-transaction_signature :
    (ts : TransactionSignature)
    → length (marshal_transaction_signature ts) ≡ transaction_signature_size ts
unfolding marshal_transaction_signature transaction_signature_size
length-transaction_signature ts =
    omega (sizes, length-append {0}, length-covered_fields ts.covered_fields)

length-siacoin_input :
    (sci : SiacoinInput) → length (marshal_siacoin_input sci) ≡ siacoin_input_size sci
unfolding marshal_siacoin_input siacoin_input_size
length-siacoin_input sci = omega (sizes, length-append {0})

length-siafund_input :
    (sfi : SiafundInput) → length (marshal_siafund_input sfi) ≡ siafund_input_size sfi
unfolding marshal_siafund_input siafund_input_size
length-siafund_input sfi = omega (sizes, length-append {0})

length-siafund_output :
    (sfo : SiafundOutput) → length (marshal_siafund_output sfo) ≡ siafund_output_size sfo
unfolding marshal_siafund_output siafund_output_size
length-siafund_output sfo = omega (sizes, length-append {0})

-- A segment is an array of 64 bytes.
abbrev pub IsSegment : StorageProof → Type 0
IsSegment sp = length sp.segment ≡ 64

length-storage_proof :
    (sp : StorageProof) → IsSegment sp → length (marshal_storage_proof sp) ≡ storage_proof_size sp
unfolding marshal_storage_proof storage_proof_size
length-storage_proof sp h = omega (sizes, length-append {0})

length-arbitrary_data : (d : List ℕ) → length (write_prefix d) ≡ arbitrary_data_size d
unfolding arbitrary_data_size
length-arbitrary_data d = length-write_prefix d

-- `MarshalSiaSize` is the length of the encoding, for every transaction whose storage proofs have
-- segments of 64 bytes: the check that a debug build makes of it always passes.
pub length-marshal_transaction :
    (t : Transaction)
    → All IsSegment t.storage_proofs
    → length (marshal_transaction t) ≡ transaction_size t
unfolding marshal_transaction marshal_no_signatures transaction_size
length-marshal_transaction t h = omega (
  arith,
  length-append {0},
  length-write_slice_all marshal_siacoin_input _ length-siacoin_input t.siacoin_inputs,
  length-siacoin_outputs t.siacoin_outputs,
  length-write_slice_all marshal_file_contract _ length-file_contract t.file_contracts,
  length-write_slice_all marshal_file_contract_revision _ length-file_contract_revision
      t.file_contract_revisions,
  length-write_slice marshal_storage_proof _ IsSegment length-storage_proof t.storage_proofs h,
  length-write_slice_all marshal_siafund_input _ length-siafund_input t.siafund_inputs,
  length-write_slice_all marshal_siafund_output _ length-siafund_output t.siafund_outputs,
  length-write_slice_all marshal_currency _ length-marshal_currency t.miner_fees,
  length-write_slice_all write_prefix _ length-arbitrary_data t.arbitrary_data,
  length-write_slice_all marshal_transaction_signature _ length-transaction_signature
      t.transaction_signatures,
)
