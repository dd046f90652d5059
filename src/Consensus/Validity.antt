-- ===== src/Consensus/Validity.antt =====
-- modules/consensus/validtransaction.go: a transaction is checked against the consensus set. The
-- build is the release "standard".
pub mod Sums
pub mod Siacoins
pub mod Siafunds
pub mod Revisions
use sia_prime.Prelude.{
  ltb, leb, ◌==◌, if◌then◌else◌, leb→le, ltb→lt, ==→eq, ==→ne, eq→==, Bool-cases, Option-cases,
  length, get_elem?, take, drop, replicate, All, sum_of, length-append, take-length_append,
  drop-length_append, sum_of-append, drop-append, ℕ, zero, suc, ◌+◌, ◌-◌, ◌*◌, ◌/◌, ◌%◌, ◌^◌, ◌≤◌,
  ◌<◌, inr-injective, ◌≡◌, refl, sym, ap, ◌∙◌, subst, ◌≢◌, ◌↔◌, ◌⊎◌, inl, inr, Bool, true, false,
  not, ◌&&◌, ◌||◌, Option, none, some, some-injective, List, [], ◌∷◌, ◌++◌, map, append-nil,
  append_assoc, arith,
}
use sia_prime.Prelude.Bytes.{
  le_bytes, of_le, be_bytes, push_byte, of_be_from, of_be, length-le_bytes, length-be_bytes,
  of_le-le_bytes, of_be_from-be_bytes, of_be-be_bytes,
}
use sia_prime.Encoding.Integers.{enc_uint64, dec_uint64, length-enc_uint64, dec_uint64-enc_uint64}
use sia_prime.Types.Data.{
  Currency, Hash, BlockHeight, SiaPublicKey, UnlockConditions, SiacoinInput, SiacoinOutput,
  SiafundInput, SiafundOutput, FileContract, FileContractRevision, StorageProof, CoveredFields,
  TransactionSignature, Transaction, Block, BlockHeader,
}
use sia_prime.Types.Network.{Network, standard, add64, sub64, mul64}
use sia_prime.Types.Currency.{
  add, sub, mul, div, equals, is_zero, round_down, mul_rat, mul_tax, to_uint64, siafund_count,
  siafund_count-pos, tax_float_num, tax_float_den, tax_float_den-pos, mul_float_tax, tax, post_tax,
}
use sia_prime.Types.Ids.{
  Crypto, specifier_siacoin_output, specifier_file_contract, specifier_siafund_output,
  specifier_storage_proof_output, transaction_id, siacoin_output_id, file_contract_id,
  siafund_output_id, sia_claim_output_id, storage_proof_output_id, merkle_leaves, header, header_id,
  block_id, miner_payout_id, unlock_hash,
}
use sia_prime.Types.Marshal.Encode.{
  write_hash, write_specifier, write_prefix, write_slice, marshal_public_key,
  marshal_unlock_conditions, marshal_siacoin_input, marshal_siacoin_output, marshal_siafund_input,
  marshal_siafund_output, marshal_file_contract, marshal_file_contract_revision,
  marshal_storage_proof, write_bool, marshal_covered_fields, marshal_transaction_signature,
  marshal_no_signatures, marshal_transaction, marshal_block,
}
use sia_prime.Types.Outcome.{
  TxnError, double_spend, file_contract_output_sum_violation, file_contract_window_end_violation,
  file_contract_window_start_violation, non_zero_claim_start, non_zero_revision,
  storage_proof_with_outputs, timelock_not_satisfied, transaction_too_large, zero_miner_fee,
  zero_output, zero_revision, entropy_key, frivolous_signature, invalid_pub_key_index,
  missing_signatures, premature_signature, public_key_overuse, sorted_unique_violation,
  unlock_hash_wrong_algorithm, whole_transaction_violation, invalid_signature, Outcome, ◌>>◌, each,
  then-none, none-then, each-none, none-each, each-All, then_iff,
}
use sia_prime.Types.Validity.{
  add_outputs, correct_file_contract, correct_file_contracts, correct_file_contract_revision,
  correct_file_contract_revisions, block_size_limit, oak_hardfork_txn_size_limit, fits_in_a_block,
  check_siacoin_output, check_payout, check_siafund_output, check_miner_fee, follows_minimum_values,
  follows_storage_proof_rules, exists_in, enter_ids, fail_on_repeat, enter_more, no_repeats,
  valid_unlock_conditions, all_unlock_conditions, standalone_valid,
}
use sia_prime.Types.Sums.{siacoin_output_sum, siacoin_output_sum_lem}
use sia_prime.Consensus.Bolt.{Bolt, IsLawful, SameBucket}
use sia_prime.Consensus.Data.{
  DiffDirection, diff_apply, diff_revert, SiacoinOutputDiff, FileContractDiff, SiafundOutputDiff,
  DelayedSiacoinOutputDiff, SiafundPoolDiff, ProcessedBlock, Contracts, State,
}
use sia_prime.Consensus.Panic.{is_some}
use sia_prime.Consensus.Database.{
  dev_addr, get_path, current_block_id, get_block_map, current_processed_block, add_block_map,
  push_path, pop_path, is_siacoin_output, get_siacoin_output, add_siacoin_output,
  remove_siacoin_output, get_file_contract, bucket_or_empty, add_file_contract,
  remove_file_contract, get_siafund_output, add_siafund_output, remove_siafund_output,
  DelayedOutputs, add_dsco, remove_dsco, create_dsco_bucket, delete_dsco_bucket,
}
use sia_prime.Consensus.Apply.{Rules}

-- `standalone` is an error of types/validtransaction.go or types/signatures.go.
pub data ConsensusError : Type 0 where
  altered_revision_payouts invalid_storage_proof late_revision low_revision_number : ConsensusError
  missing_siacoin_output nil_item siacoin_input_output_mismatch : ConsensusError
  siafund_input_output_mismatch unfinished_file_contract : ConsensusError
  unrecognized_file_contract_id wrong_unlock_conditions : ConsensusError
  standalone : TxnError → ConsensusError

abbrev pub Failure : Type 0
Failure = Option ConsensusError

-- `CalculateLeaves` of crypto/merkle.go.
unfoldable pub calculate_leaves : ℕ → ℕ
calculate_leaves size =
    let segments = size / 64 in
    if (size == 0) || not (size % 64 == 0) then add64 segments 1 else segments

unfoldable pub add_siafund_outputs : Currency → List SiafundOutput → Currency
add_siafund_outputs total [] = total
add_siafund_outputs total (o ∷ os) = add_siafund_outputs (add total o.value) os

unfoldable pub standalone_failure : Outcome → Failure
standalone_failure none = none
standalone_failure (some e) = some (standalone e)

module _ (db : Bolt) (rules : Rules) where
  -- The loop over the inputs: an error, or the sum of what they spend.
  unfoldable pub input_sum :
      db.Bucket SiacoinOutput → Currency → List SiacoinInput → ConsensusError ⊎ Currency
  input_sum b total [] = inr total
  input_sum b total (sci ∷ scis) = elim (db.get sci.parent_id b) [
    | none ↦ inl missing_siacoin_output
    | some sco ↦
        let rest = input_sum b (add total sco.value) scis in
        if unlock_hash rules.crypto sci.unlock_conditions == sco.unlock_hash
        then rest
        else inl wrong_unlock_conditions
  ]

  unfoldable pub valid_siacoins : State db → Transaction → Failure
  unfolding equals
  valid_siacoins s t = elim (input_sum s.siacoin_outputs 0 t.siacoin_inputs) [
    | inl e ↦ some e
    | inr total ↦
        if equals total (siacoin_output_sum t) then none else some siacoin_input_output_mismatch
  ]

  -- The hash of a block of the path and the contract's id, taken modulo the number of segments. A
  -- path entry that is missing copies nothing into the zero id.
  unfoldable pub storage_proof_segment : State db → Hash → ConsensusError ⊎ ℕ
  storage_proof_segment s fcid = elim (db.get fcid s.contracts.file_contracts) [
    | none ↦ inl unrecognized_file_contract_id
    | some fc ↦
        let trigger_height = sub64 fc.window_start 1 in
        let trigger_id : Hash = elim (db.get trigger_height s.block_path) [
          | none ↦ 0
          | some id ↦ id
        ] in
        let seed = rules.crypto.blake2b (write_hash trigger_id ++ write_hash fcid) in
        if ltb s.block_height trigger_height
        then inl unfinished_file_contract
        else inr (seed % calculate_leaves fc.file_size)
  ]

  -- How much of the segment is verified: before block 21,000 all of it; before block 100,000 what the
  -- file's size leaves in the last one; later, all of it where that is nothing.
  unfoldable pub segment_length : BlockHeight → ℕ → ℕ → ℕ
  segment_length height size index =
      let last = if index == sub64 (calculate_leaves size) 1 then size % 64 else 64 in
      if ltb height 21000
      then 64
      else if ltb height 100000
      then last
      else if last == 0
      then 64
      else last

  -- Before block 100,000 a proof for an empty file has to verify as well.
  unfoldable pub valid_storage_proof : State db → StorageProof → Failure
  valid_storage_proof s sp = elim (storage_proof_segment s sp.parent_id) [
    | inl e ↦ some e
    | inr index ↦ elim (get_file_contract db sp.parent_id s.contracts) [
      | none ↦ some nil_item
      | some fc ↦
          let verified =
            rules.crypto.verify_segment
              (take (segment_length s.block_height fc.file_size index) sp.segment) sp.hash_set
              (calculate_leaves fc.file_size) index fc.file_merkle_root in
          if not verified && (ltb s.block_height 100000 || ltb 0 fc.file_size)
          then some invalid_storage_proof
          else none
    ]
  ]

  unfoldable pub valid_storage_proofs : State db → Transaction → Failure
  valid_storage_proofs s t = each (valid_storage_proof s) t.storage_proofs

  unfoldable pub valid_file_contract_revision : State db → FileContractRevision → Failure
  unfolding equals
  valid_file_contract_revision s fcr = elim (get_file_contract db fcr.parent_id s.contracts) [
    | none ↦ some nil_item
    | some fc ↦
        let valid_payout = add_outputs 0 fcr.new_valid_proof_outputs in
        let missed_payout = add_outputs 0 fcr.new_missed_proof_outputs in
        let old_payout = add_outputs 0 fc.valid_proof_outputs in
        if ltb fc.window_start s.block_height
        then some late_revision
        else if leb fcr.new_revision_number fc.revision_number
        then some low_revision_number
        else if not (unlock_hash rules.crypto fcr.unlock_conditions == fc.unlock_hash)
        then some wrong_unlock_conditions
        else if not (equals valid_payout old_payout)
        then some altered_revision_payouts
        else if not (equals missed_payout old_payout)
        then some altered_revision_payouts
        else none
  ]

  unfoldable pub valid_file_contract_revisions : State db → Transaction → Failure
  valid_file_contract_revisions s t =
      each (valid_file_contract_revision s) t.file_contract_revisions

  unfoldable pub siafund_input_sum :
      State db → Currency → List SiafundInput → ConsensusError ⊎ Currency
  siafund_input_sum s total [] = inr total
  siafund_input_sum s total (sfi ∷ sfis) =
      elim (get_siafund_output db rules.last_genesis_hash s.block_height sfi.parent_id
        s.siafund_outputs) [
          | none ↦ inl nil_item
          | some sfo ↦
              let rest = siafund_input_sum s (add total sfo.value) sfis in
              if unlock_hash rules.crypto sfi.unlock_conditions == sfo.unlock_hash
              then rest
              else inl wrong_unlock_conditions
        ]

  unfoldable pub valid_siafunds : State db → Transaction → Failure
  unfolding equals
  valid_siafunds s t = elim (siafund_input_sum s 0 t.siafund_inputs) [
    | inl e ↦ some e
    | inr total ↦
        if equals (add_siafund_outputs 0 t.siafund_outputs) total
        then none
        else some siafund_input_output_mismatch
  ]

  -- Given what `validSignatures` returns.
  unfoldable pub valid_transaction :
      (BlockHeight → Transaction → Outcome) → State db → Transaction → Failure
  valid_transaction valid_signatures s t =
      standalone_failure (standalone_valid rules.network valid_signatures s.block_height t)
      >> valid_siacoins s t
      >> valid_storage_proofs s t
      >> valid_file_contract_revisions s t
      >> valid_siafunds s t
