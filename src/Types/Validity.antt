-- ===== src/Types/Validity.antt =====
-- types/validtransaction.go: the rules that a transaction follows in every context.
pub mod Laws
pub mod Distinct
use sia_prime.Prelude.{
  ltb, leb, ◌==◌, if◌then◌else◌, leb→le, ltb→lt, ==→eq, ==→ne, eq→==, Bool-cases, Option-cases,
  length, get_elem?, take, drop, replicate, All, sum_of, length-append, take-length_append,
  drop-length_append, sum_of-append, drop-append, ℕ, zero, suc, ◌+◌, ◌-◌, ◌*◌, ◌/◌, ◌%◌, ◌^◌, ◌≤◌,
  ◌<◌, ◌≡◌, refl, sym, ap, ◌∙◌, subst, ◌≢◌, ◌↔◌, ◌⊎◌, inl, inr, Bool, true, false, not, ◌&&◌, ◌||◌,
  Option, none, some, List, [], ◌∷◌, ◌++◌, map, append-nil, append_assoc, arith,
}
use sia_prime.Types.Data.{
  Currency, Hash, BlockHeight, SiaPublicKey, UnlockConditions, SiacoinInput, SiacoinOutput,
  SiafundInput, SiafundOutput, FileContract, FileContractRevision, StorageProof, CoveredFields,
  TransactionSignature, Transaction, Block, BlockHeader,
}
use sia_prime.Types.Network.{Network}
use sia_prime.Types.Currency.{add, equals, is_zero, post_tax}
use sia_prime.Types.Marshal.Size.{transaction_size}
use sia_prime.Types.Outcome.{
  TxnError, double_spend, file_contract_output_sum_violation, file_contract_window_end_violation,
  file_contract_window_start_violation, non_zero_claim_start, non_zero_revision,
  storage_proof_with_outputs, timelock_not_satisfied, transaction_too_large, zero_miner_fee,
  zero_output, zero_revision, entropy_key, frivolous_signature, invalid_pub_key_index,
  missing_signatures, premature_signature, public_key_overuse, sorted_unique_violation,
  unlock_hash_wrong_algorithm, whole_transaction_violation, invalid_signature, Outcome, ◌>>◌, each,
  then-none, none-then, each-none, none-each, each-All,
}

-- A loop that adds the values of outputs to an accumulator.
unfoldable pub add_outputs : Currency → List SiacoinOutput → Currency
add_outputs total [] = total
add_outputs total (o ∷ os) = add_outputs (add total (o.value)) os

unfoldable pub correct_file_contract : Network → BlockHeight → FileContract → Outcome
unfolding equals
correct_file_contract net height fc =
    let valid_sum = add_outputs 0 (fc.valid_proof_outputs) in
    let missed_sum = add_outputs 0 (fc.missed_proof_outputs) in
    let output_portion = post_tax (net.tax_hardfork_height) height (fc.payout) in
    if leb (fc.window_start) height
    then some file_contract_window_start_violation
    else if leb (fc.window_end) (fc.window_start)
    then some file_contract_window_end_violation
    else if not (equals valid_sum output_portion)
    then some file_contract_output_sum_violation
    else if not (equals missed_sum output_portion)
    then some file_contract_output_sum_violation
    else none

unfoldable pub correct_file_contracts : Network → BlockHeight → Transaction → Outcome
correct_file_contracts net height t = each (correct_file_contract net height) (t.file_contracts)

unfoldable pub correct_file_contract_revision : BlockHeight → FileContractRevision → Outcome
unfolding equals
correct_file_contract_revision height fcr =
    let valid_sum = add_outputs 0 (fcr.new_valid_proof_outputs) in
    let missed_sum = add_outputs 0 (fcr.new_missed_proof_outputs) in
    if leb (fcr.new_window_start) height
    then some file_contract_window_start_violation
    else if leb (fcr.new_window_end) (fcr.new_window_start)
    then some file_contract_window_end_violation
    else if not (equals valid_sum missed_sum)
    then some file_contract_output_sum_violation
    else none

unfoldable pub correct_file_contract_revisions : BlockHeight → Transaction → Outcome
correct_file_contract_revisions height t =
    each (correct_file_contract_revision height) (t.file_contract_revisions)

abbrev pub block_size_limit : ℕ
block_size_limit = 2000000

abbrev pub oak_hardfork_txn_size_limit : ℕ
oak_hardfork_txn_size_limit = 64000

unfoldable pub fits_in_a_block : Network → BlockHeight → Transaction → Outcome
fits_in_a_block net height t =
    let size = transaction_size t in
    if ltb (block_size_limit - 5000) size
    then some transaction_too_large
    else if leb (net.oak_hardfork_block) height
    then (if ltb oak_hardfork_txn_size_limit size then some transaction_too_large else none)
    else none

unfoldable pub check_siacoin_output : SiacoinOutput → Outcome
unfolding is_zero
check_siacoin_output o = if is_zero (o.value) then some zero_output else none

unfoldable pub check_payout : FileContract → Outcome
unfolding is_zero
check_payout fc = if is_zero (fc.payout) then some zero_output else none

unfoldable pub check_siafund_output : SiafundOutput → Outcome
unfolding is_zero
check_siafund_output o =
    if not (is_zero (o.claim_start))
    then some non_zero_claim_start
    else if is_zero (o.value)
    then some zero_output
    else none

unfoldable pub check_miner_fee : Currency → Outcome
unfolding is_zero
check_miner_fee fee = if is_zero fee then some zero_miner_fee else none

unfoldable pub follows_minimum_values : Transaction → Outcome
follows_minimum_values t =
    each check_siacoin_output (t.siacoin_outputs)
    >> each check_payout (t.file_contracts)
    >> each check_siafund_output (t.siafund_outputs)
    >> each check_miner_fee (t.miner_fees)

unfoldable pub follows_storage_proof_rules : Transaction → Outcome
follows_storage_proof_rules t =
    if length (t.storage_proofs) == 0
    then none
    else if not (length (t.siacoin_outputs) == 0)
    then some storage_proof_with_outputs
    else if not (length (t.file_contracts) == 0)
    then some storage_proof_with_outputs
    else if not (length (t.file_contract_revisions) == 0)
    then some storage_proof_with_outputs
    else if not (length (t.siafund_outputs) == 0)
    then some storage_proof_with_outputs
    else none

-- A map[Hash]struct{} is the list of its keys.
abbrev pub exists_in : Hash → List Hash → Bool
exists_in id [] = false
exists_in id (x ∷ xs) = if id == x then true else exists_in id xs

-- A loop that enters ids into a set: the set that results, or `none` at a repeat.
unfoldable pub enter_ids : List Hash → List Hash → Option (List Hash)
enter_ids seen [] = some seen
enter_ids seen (id ∷ ids) =
    let rest = enter_ids (id ∷ seen) ids in if exists_in id seen then none else rest

unfoldable pub fail_on_repeat : Option (List Hash) → Outcome
fail_on_repeat none = some double_spend
fail_on_repeat (some seen) = none

-- The second loop goes on with the set of the first.
unfoldable pub enter_more : Option (List Hash) → List Hash → Option (List Hash)
enter_more none ids = none
enter_more (some seen) ids = enter_ids seen ids

unfoldable pub no_repeats : Transaction → Outcome
no_repeats t =
    let done_file_contracts = enter_ids [] (map StorageProof.parent_id (t.storage_proofs)) in
    fail_on_repeat (enter_ids [] (map SiacoinInput.parent_id (t.siacoin_inputs)))
    >> fail_on_repeat done_file_contracts
    >> fail_on_repeat (
        enter_more done_file_contracts
          (map FileContractRevision.parent_id (t.file_contract_revisions)))
    >> fail_on_repeat (enter_ids [] (map SiafundInput.parent_id (t.siafund_inputs)))

unfoldable pub valid_unlock_conditions : BlockHeight → UnlockConditions → Outcome
valid_unlock_conditions height uc =
    if ltb height (uc.timelock) then some timelock_not_satisfied else none

unfoldable pub all_unlock_conditions : BlockHeight → Transaction → Outcome
all_unlock_conditions height t =
    each (λ i. valid_unlock_conditions height (i.unlock_conditions)) (t.siacoin_inputs)
    >> each (λ r. valid_unlock_conditions height (r.unlock_conditions)) (t.file_contract_revisions)
    >> each (λ i. valid_unlock_conditions height (i.unlock_conditions)) (t.siafund_inputs)

-- `StandaloneValid`, given what `validSignatures` returns.
unfoldable pub standalone_valid :
    Network → (BlockHeight → Transaction → Outcome) → BlockHeight → Transaction → Outcome
standalone_valid net valid_signatures height t =
    fits_in_a_block net height t
    >> follows_storage_proof_rules t
    >> no_repeats t
    >> follows_minimum_values t
    >> correct_file_contracts net height t
    >> correct_file_contract_revisions height t
    >> all_unlock_conditions height t
    >> valid_signatures height t
