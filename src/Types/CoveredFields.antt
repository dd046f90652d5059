-- ===== src/Types/CoveredFields.antt =====
-- types/signatures.go: `sortedUnique` and `validCoveredFields`.
pub mod Laws
use sia_prime.Prelude.{
  ltb, leb, ◌==◌, if◌then◌else◌, leb→le, ltb→lt, ==→eq, ==→ne, eq→==, Bool-cases, Option-cases,
  length, get_elem?, take, drop, replicate, All, sum_of, length-append, take-length_append,
  drop-length_append, sum_of-append, drop-append, ℕ, zero, suc, ◌+◌, ◌-◌, ◌*◌, ◌/◌, ◌%◌, ◌^◌, ◌≤◌,
  ◌<◌, inr-injective, ◌≡◌, refl, sym, ap, ◌∙◌, subst, ◌≢◌, ◌↔◌, ◌⊎◌, inl, inr, Bool, true, false,
  not, ◌&&◌, ◌||◌, Option, none, some, some-injective, List, [], ◌∷◌, ◌++◌, map, append-nil,
  append_assoc, arith,
}
use sia_prime.Types.Data.{
  Currency, Hash, BlockHeight, SiaPublicKey, UnlockConditions, SiacoinInput, SiacoinOutput,
  SiafundInput, SiafundOutput, FileContract, FileContractRevision, StorageProof, CoveredFields,
  TransactionSignature, Transaction, Block, BlockHeader,
}
use sia_prime.Types.Outcome.{
  TxnError, double_spend, file_contract_output_sum_violation, file_contract_window_end_violation,
  file_contract_window_start_violation, non_zero_claim_start, non_zero_revision,
  storage_proof_with_outputs, timelock_not_satisfied, transaction_too_large, zero_miner_fee,
  zero_output, zero_revision, entropy_key, frivolous_signature, invalid_pub_key_index,
  missing_signatures, premature_signature, public_key_overuse, sorted_unique_violation,
  unlock_hash_wrong_algorithm, whole_transaction_violation, invalid_signature, Outcome, ◌>>◌, each,
  then-none, none-then, each-none, none-each, each-All, then_iff,
}

-- The loop over the elements after the first, with the biggest one so far.
unfoldable pub climb : ℕ → List ℕ → ℕ → Bool
climb biggest [] max = if leb max biggest then false else true
climb biggest (elem ∷ elems) max =
    let rest = climb elem elems max in if leb elem biggest then false else rest

unfoldable pub sorted_unique : List ℕ → ℕ → Bool
sorted_unique [] max = true
sorted_unique (elem ∷ elems) max = climb elem elems max

-- `fieldMaxs` but the last, and the last.
unfoldable pub field_maxs : Transaction → CoveredFields → List (List ℕ × ℕ)
field_maxs t cf =
    (cf.siacoin_inputs, length t.siacoin_inputs)
    ∷ (cf.siacoin_outputs, length t.siacoin_outputs)
    ∷ (cf.file_contracts, length t.file_contracts)
    ∷ (cf.file_contract_revisions, length t.file_contract_revisions)
    ∷ (cf.storage_proofs, length t.storage_proofs)
    ∷ (cf.siafund_inputs, length t.siafund_inputs)
    ∷ (cf.siafund_outputs, length t.siafund_outputs)
    ∷ (cf.miner_fees, length t.miner_fees)
    ∷ (cf.arbitrary_data, length t.arbitrary_data)
    ∷ []

unfoldable pub signatures_max : Transaction → CoveredFields → List ℕ × ℕ
signatures_max t cf = (cf.transaction_signatures, length t.transaction_signatures)

-- The loops that look for a field that is not empty.
unfoldable pub all_empty : List (List ℕ × ℕ) → Bool
all_empty [] = true
all_empty (f ∷ fs) = let rest = all_empty fs in if length (f.0) == 0 then rest else false

unfoldable pub check_whole : Bool → List (List ℕ × ℕ) → List ℕ × ℕ → Outcome
check_whole true fields signatures =
    if all_empty fields then none else some whole_transaction_violation
check_whole false fields signatures =
    if all_empty (fields ++ (signatures ∷ [])) then some whole_transaction_violation else none

unfoldable pub check_field : List ℕ × ℕ → Outcome
check_field (field, max) = if sorted_unique field max then none else some sorted_unique_violation

unfoldable pub valid_signature_fields : Transaction → TransactionSignature → Outcome
valid_signature_fields t sig =
    let cf = sig.covered_fields in
    check_whole cf.whole_transaction (field_maxs t cf) (signatures_max t cf)
    >> each check_field (field_maxs t cf ++ (signatures_max t cf ∷ []))

unfoldable pub valid_covered_fields : Transaction → Outcome
valid_covered_fields t = each (valid_signature_fields t) t.transaction_signatures
