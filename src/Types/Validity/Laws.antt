-- ===== src/Types/Validity/Laws.antt =====
-- types/validtransaction.go: what a transaction that passes the checks satisfies, and conversely.
use sia_prime.Prelude.{
  leb, ◌==◌, leb→le, ==→ne, Bool-cases, length, All, sum_of, ℕ, ◌+◌, ◌≤◌, ◌<◌, ◌≡◌, ◌↔◌, inl, inr,
  none, List, [], ◌∷◌, ◌++◌, map, arith,
}
use sia_prime.Types.Data.{
  BlockHeight, UnlockConditions, SiacoinInput, SiacoinOutput, SiafundInput, FileContract,
  FileContractRevision, StorageProof, Transaction,
}
use sia_prime.Types.Network.{Network}
use sia_prime.Types.Currency.{add, is_zero, post_tax}
use sia_prime.Types.Marshal.Size.{transaction_size}
use sia_prime.Types.Outcome.{Outcome, then-none, none-then, each-All, then_iff}
use sia_prime.Types.Validity.{
  add_outputs, correct_file_contract, correct_file_contracts, correct_file_contract_revision,
  correct_file_contract_revisions, fits_in_a_block, check_siacoin_output, check_payout,
  check_siafund_output, check_miner_fee, follows_minimum_values, follows_storage_proof_rules,
  no_repeats, valid_unlock_conditions, all_unlock_conditions, standalone_valid,
}
use sia_prime.Types.Validity.Distinct.{Distinct, enter_ids_iff, enter_more-append, Distinct-left}

pub add_outputs_lem :
    (total : ℕ) (os : List SiacoinOutput)
    → add_outputs total os ≡ total + sum_of SiacoinOutput.value os
unfolding add_outputs add
add_outputs_lem total [] = omega arith
add_outputs_lem total (o ∷ os) = omega (arith, add_outputs_lem (total + o.value) os)

-- A contract whose window lies ahead, not empty, and whose outputs, on success and on failure,
-- share out what the tax leaves of the payout.
unfoldable pub ContractIsCorrect : Network → BlockHeight → FileContract → Type 0
ContractIsCorrect net height fc =
    (height < fc.window_start)
    × (fc.window_start < fc.window_end)
    × (sum_of SiacoinOutput.value (fc.valid_proof_outputs)
        ≡ post_tax (net.tax_hardfork_height) height (fc.payout))
    × (sum_of SiacoinOutput.value (fc.missed_proof_outputs)
        ≡ post_tax (net.tax_hardfork_height) height (fc.payout))

contract_iff :
    (net : Network) (height : BlockHeight) (fc : FileContract)
    → (correct_file_contract net height fc ≡ none) ↔ ContractIsCorrect net height fc
unfolding correct_file_contract ContractIsCorrect
contract_iff net height fc =
    rw (add_outputs_lem 0 (fc.valid_proof_outputs), add_outputs_lem 0 (fc.missed_proof_outputs))
      (λ h. ground arith, λ h. ground arith)

unfoldable pub RevisionIsCorrect : BlockHeight → FileContractRevision → Type 0
RevisionIsCorrect height fcr =
    (height < fcr.new_window_start)
    × (fcr.new_window_start < fcr.new_window_end)
    × (sum_of SiacoinOutput.value fcr.new_valid_proof_outputs
        ≡ sum_of SiacoinOutput.value fcr.new_missed_proof_outputs)

revision_iff :
    (height : BlockHeight) (fcr : FileContractRevision)
    → (correct_file_contract_revision height fcr ≡ none) ↔ RevisionIsCorrect height fcr
unfolding correct_file_contract_revision RevisionIsCorrect
revision_iff height fcr =
    rw
      (
        add_outputs_lem 0 fcr.new_valid_proof_outputs,
        add_outputs_lem 0 fcr.new_missed_proof_outputs,
      )
      (λ h. ground arith, λ h. ground arith)

-- At most 1,995,000 bytes, and after the Oak hardfork at most 64,000.
unfoldable pub SizeIsLegal : Network → BlockHeight → Transaction → Type 0
SizeIsLegal net height t =
    (transaction_size t ≤ 1995000) × (net.oak_hardfork_block ≤ height → transaction_size t ≤ 64000)

size_iff :
    (net : Network) (height : BlockHeight) (t : Transaction)
    → (fits_in_a_block net height t ≡ none) ↔ SizeIsLegal net height t
unfolding fits_in_a_block SizeIsLegal
size_iff net height t = (
  λ h. (ground arith, λ k. ground arith),
  λ h. elim (Bool-cases (leb net.oak_hardfork_block height)) [
    | inl e ↦ let p = h.1 (leb→le net.oak_hardfork_block height e) in ground arith
    | inr e ↦ let p = h.0 in ground arith
  ],
)

-- No output, payout, fee or siafund output is empty, and no siafund output sets its claim start.
unfoldable pub HasMinimumValues : Transaction → Type 0
HasMinimumValues t =
    All (λ o. 0 < o.value) t.siacoin_outputs
    × (All (λ fc. 0 < fc.payout) t.file_contracts
        × (All (λ o. (o.claim_start ≡ 0) × (0 < o.value)) t.siafund_outputs
            × All (λ fee. 0 < fee) t.miner_fees))

minimum_iff : (t : Transaction) → (follows_minimum_values t ≡ none) ↔ HasMinimumValues t
unfolding follows_minimum_values HasMinimumValues check_siacoin_output check_payout
    check_siafund_output check_miner_fee is_zero
minimum_iff t =
    then_iff
      (each-All (λ o. 0 < o.value) check_siacoin_output
        (λ o. (λ h. ground arith, λ h. ground arith)) t.siacoin_outputs)
      (then_iff
        (each-All (λ fc. 0 < fc.payout) check_payout (λ fc. (λ h. ground arith, λ h. ground arith))
          t.file_contracts)
        (then_iff
          (each-All (λ o. (o.claim_start ≡ 0) × (0 < o.value)) check_siafund_output
            (λ o. (λ h. ground arith, λ h. ground arith)) t.siafund_outputs)
          (each-All (λ fee. 0 < fee) check_miner_fee (λ fee. (λ h. ground arith, λ h. ground arith))
            t.miner_fees)))

-- A transaction with storage proofs makes no output, contract or revision.
unfoldable pub FollowsProofRules : Transaction → Type 0
FollowsProofRules t =
    (0 < length t.storage_proofs)
    → (length t.siacoin_outputs ≡ 0)
      × (length t.file_contracts ≡ 0)
      × (length t.file_contract_revisions ≡ 0)
      × (length t.siafund_outputs ≡ 0)

proof_rules_iff : (t : Transaction) → (follows_storage_proof_rules t ≡ none) ↔ FollowsProofRules t
unfolding follows_storage_proof_rules FollowsProofRules
proof_rules_iff t = (
  λ h k. (ground arith, ground arith, ground arith, ground arith),
  λ h. elim (Bool-cases (length t.storage_proofs == 0)) [
    | inl e ↦ ground arith
    | inr e ↦
        let p = h (let q = ==→ne (length t.storage_proofs) 0 e in omega arith) in
        let (a, b, c, d) = p in ground arith
  ],
)

-- No siacoin or siafund output is spent twice, and no contract is proved or revised twice.
unfoldable pub SpendsOnce : Transaction → Type 0
SpendsOnce t =
    Distinct (map SiacoinInput.parent_id t.siacoin_inputs)
    × Distinct (
        map StorageProof.parent_id t.storage_proofs
        ++ map FileContractRevision.parent_id t.file_contract_revisions)
    × Distinct (map SiafundInput.parent_id t.siafund_inputs)

repeats_iff : (t : Transaction) → (no_repeats t ≡ none) ↔ SpendsOnce t
unfolding no_repeats SpendsOnce
repeats_iff t =
    let proofs = map StorageProof.parent_id t.storage_proofs in
    let revisions = map FileContractRevision.parent_id t.file_contract_revisions in
    let scis = enter_ids_iff (map SiacoinInput.parent_id t.siacoin_inputs) in
    let ps = enter_ids_iff proofs in
    let both = enter_ids_iff (proofs ++ revisions) in
    let sfis = enter_ids_iff (map SiafundInput.parent_id t.siafund_inputs) in
    rw (enter_more-append [] proofs revisions) (
      λ h.
          let (a, h1) = then-none _ _ h in
          let (b, h2) = then-none _ _ h1 in
          let (c, d) = then-none _ _ h2 in (scis.0 a, both.0 c, sfis.0 d),
      λ (a, c, d). none-then _ _ (scis.1 a) (
          none-then _ _ (ps.1 (Distinct-left proofs revisions c))
            (none-then _ _ (both.1 c) (sfis.1 d))),
    )

-- Every timelock that the transaction unlocks has run out.
unfoldable pub TimelocksAreMet : BlockHeight → Transaction → Type 0
TimelocksAreMet height t =
    All (λ i. i.unlock_conditions.timelock ≤ height) t.siacoin_inputs
    × (All (λ r. r.unlock_conditions.timelock ≤ height) t.file_contract_revisions
        × All (λ i. i.unlock_conditions.timelock ≤ height) t.siafund_inputs)

timelocks_iff :
    (height : BlockHeight) (t : Transaction)
    → (all_unlock_conditions height t ≡ none) ↔ TimelocksAreMet height t
unfolding all_unlock_conditions TimelocksAreMet valid_unlock_conditions
timelocks_iff height t =
    let met : (uc : UnlockConditions)
        → (valid_unlock_conditions height uc ≡ none) ↔ (uc.timelock ≤ height) =
      λ uc. (λ h. ground arith, λ h. ground arith) in
    then_iff
      (each-All (λ i. i.unlock_conditions.timelock ≤ height)
        (λ i. valid_unlock_conditions height i.unlock_conditions) (λ i. met i.unlock_conditions)
        t.siacoin_inputs)
      (then_iff
        (each-All (λ r. r.unlock_conditions.timelock ≤ height)
          (λ r. valid_unlock_conditions height r.unlock_conditions) (λ r. met r.unlock_conditions)
          t.file_contract_revisions)
        (each-All (λ i. i.unlock_conditions.timelock ≤ height)
          (λ i. valid_unlock_conditions height i.unlock_conditions) (λ i. met i.unlock_conditions)
          t.siafund_inputs))

-- What a transaction is to satisfy in any context, signatures apart.
unfoldable pub IsStandaloneValid : Network → BlockHeight → Transaction → Type 0
IsStandaloneValid net height t =
    SizeIsLegal net height t
    × (FollowsProofRules t
        × (SpendsOnce t
            × (HasMinimumValues t
                × (All (ContractIsCorrect net height) t.file_contracts
                    × (All (RevisionIsCorrect height) t.file_contract_revisions
                        × TimelocksAreMet height t)))))

-- StandaloneValid accepts a transaction exactly when it is at most 1,995,000 bytes long and from the
-- Oak hardfork block on at most 64,000, its storage proofs stand alone, it spends each output and
-- touches each contract once, its values are positive, its contracts and revisions have a window
-- ahead and balanced outputs, its timelocks are met, and its signatures are accepted.
pub standalone_valid_iff :
    (net : Network) (valid_signatures : BlockHeight → Transaction → Outcome) (height : BlockHeight)
    (t : Transaction)
    → (standalone_valid net valid_signatures height t ≡ none)
      ↔ (IsStandaloneValid net height t × (valid_signatures height t ≡ none))
unfolding standalone_valid IsStandaloneValid correct_file_contracts correct_file_contract_revisions
standalone_valid_iff net valid_signatures height t =
    let r = then_iff (size_iff net height t) (
      then_iff (proof_rules_iff t) (
        then_iff (repeats_iff t) (
          then_iff (minimum_iff t) (
            then_iff (each-All _ _ (contract_iff net height) t.file_contracts) (
              then_iff (each-All _ _ (revision_iff height) t.file_contract_revisions)
                (then_iff (timelocks_iff height t) (λ h. h, λ h. h))))))) in
    (
      λ h. let (a, (b, (c, (d, (e, (f, (g, s))))))) = r.0 h in ((a, (b, (c, (d, (e, (f, g)))))), s),
      λ ((a, (b, (c, (d, (e, (f, g)))))), s). r.1 (a, (b, (c, (d, (e, (f, (g, s))))))),
    )
