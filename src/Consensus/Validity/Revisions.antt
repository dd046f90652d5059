-- ===== src/Consensus/Validity/Revisions.antt =====
-- modules/consensus/validtransaction.go: which revisions `validFileContractRevisions` accepts.
use sia_prime.Prelude.{
  ltb, leb, ◌==◌, if◌then◌else◌, Option-cases, All, sum_of, ℕ, ◌≤◌, ◌<◌, ◌≡◌, sym, ◌↔◌, inl, inr,
  not, none, some, arith,
}
use sia_prime.Types.Data.{SiacoinOutput, FileContract, FileContractRevision, Transaction}
use sia_prime.Types.Currency.{equals}
use sia_prime.Types.Ids.{unlock_hash}
use sia_prime.Types.Outcome.{each-All}
use sia_prime.Types.Validity.{add_outputs}
use sia_prime.Types.Validity.Laws.{add_outputs_lem}
use sia_prime.Consensus.Bolt.{Bolt}
use sia_prime.Consensus.Data.{State}
use sia_prime.Consensus.Panic.{none-some}
use sia_prime.Consensus.Database.{get_file_contract}
use sia_prime.Consensus.Apply.{Rules}
use sia_prime.Consensus.Validity.{
  altered_revision_payouts, late_revision, low_revision_number, nil_item, wrong_unlock_conditions,
  valid_file_contract_revision, valid_file_contract_revisions,
}

module _ (db : Bolt) (rules : Rules) where
  -- A revision of a contract that is there, not after its window has opened, with a higher number,
  -- under the contract's unlock conditions, and with outputs that add up to the contract's.
  unfoldable pub RevisesContract : State db → FileContractRevision → Type 0
  RevisesContract s fcr =
      (fc : FileContract) × (get_file_contract db fcr.parent_id s.contracts ≡ some fc)
      × (s.block_height ≤ fc.window_start)
      × (fc.revision_number < fcr.new_revision_number)
      × (unlock_hash rules.crypto fcr.unlock_conditions ≡ fc.unlock_hash)
      × (sum_of SiacoinOutput.value fcr.new_valid_proof_outputs
          ≡ sum_of SiacoinOutput.value fc.valid_proof_outputs)
      × (sum_of SiacoinOutput.value fcr.new_missed_proof_outputs
          ≡ sum_of SiacoinOutput.value fc.valid_proof_outputs)

  revision_checks :
      (h w o n u u' v m p : ℕ)
      → ((if ltb w h
            then some late_revision
            else if leb n o
            then some low_revision_number
            else if not (u == u')
            then some wrong_unlock_conditions
            else if not (v == p)
            then some altered_revision_payouts
            else if not (m == p)
            then some altered_revision_payouts
            else none)
          ≡ none)
        ↔ ((h ≤ w) × (o < n) × (u ≡ u') × (v ≡ p) × (m ≡ p))
  revision_checks h w o n u u' v m p = (λ x. ground arith, λ x. ground arith)

  revision_iff :
      (s : State db) (fcr : FileContractRevision)
      → (valid_file_contract_revision db rules s fcr ≡ none) ↔ RevisesContract s fcr
  unfolding valid_file_contract_revision RevisesContract equals
  revision_iff s fcr =
      let valid = add_outputs_lem 0 fcr.new_valid_proof_outputs in
      let missed = add_outputs_lem 0 fcr.new_missed_proof_outputs in
      (
        λ h. elim (Option-cases (get_file_contract db fcr.parent_id s.contracts)) [
          | inl e ↦ none-some nil_item (sym (rw (valid_file_contract_revision, e) at h))
          | inr (fc, e) ↦
              let old = add_outputs_lem 0 fc.valid_proof_outputs in
              let checks =
                revision_checks s.block_height fc.window_start fc.revision_number
                  fcr.new_revision_number (unlock_hash rules.crypto fcr.unlock_conditions)
                  fc.unlock_hash (add_outputs 0 fcr.new_valid_proof_outputs)
                  (add_outputs 0 fcr.new_missed_proof_outputs)
                  (add_outputs 0 fc.valid_proof_outputs) in
              let (a, b, u, v, m) =
                checks.0 (unfold equals in (rw (valid_file_contract_revision, e) at h)) in
              (fc, e, a, b, u, omega arith, omega arith)
        ],
        λ (fc, e, a, b, u, v, m).
            let old = add_outputs_lem 0 fc.valid_proof_outputs in
            let checks =
              revision_checks s.block_height fc.window_start fc.revision_number
                fcr.new_revision_number (unlock_hash rules.crypto fcr.unlock_conditions)
                fc.unlock_hash (add_outputs 0 fcr.new_valid_proof_outputs)
                (add_outputs 0 fcr.new_missed_proof_outputs)
                (add_outputs 0 fc.valid_proof_outputs) in
            rw (valid_file_contract_revision, e)
              (unfold equals in checks.1 (a, b, u, omega arith, omega arith)),
      )

  -- `validFileContractRevisions` accepts exactly when each revision revises a contract.
  pub valid_revisions_iff :
      (s : State db) (t : Transaction)
      → (valid_file_contract_revisions db rules s t ≡ none)
        ↔ All (RevisesContract s) t.file_contract_revisions
  unfolding valid_file_contract_revisions
  valid_revisions_iff s t =
      each-All (RevisesContract s) (valid_file_contract_revision db rules s) (revision_iff s)
        t.file_contract_revisions
