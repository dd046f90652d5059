-- ===== src/Consensus/Validity/Siacoins.antt =====
-- modules/consensus/validtransaction.go: which transactions `validSiacoins` accepts.
use sia_prime.Prelude.{
  ◌==◌, if◌then◌else◌, ==→eq, eq→==, Bool-cases, Option-cases, All, sum_of, ◌+◌, inr-injective, ◌≡◌,
  refl, sym, ap, ◌∙◌, ◌↔◌, inl, inr, none, some, List, [], ◌∷◌, arith,
}
use sia_prime.Types.Data.{Currency, SiacoinInput, SiacoinOutput, FileContract, Transaction}
use sia_prime.Types.Currency.{add, equals}
use sia_prime.Types.Ids.{unlock_hash}
use sia_prime.Types.Sums.{siacoin_output_sum, siacoin_output_sum_lem}
use sia_prime.Consensus.Bolt.{Bolt}
use sia_prime.Consensus.Data.{State}
use sia_prime.Consensus.Panic.{none-some}
use sia_prime.Consensus.Apply.{or_zero_siacoin_output, Rules}
use sia_prime.Consensus.Validity.{
  missing_siacoin_output, siacoin_input_output_mismatch, wrong_unlock_conditions, input_sum,
  valid_siacoins,
}
use sia_prime.Consensus.Validity.Sums.{inl-inr, Sum-cases}

module _ (db : Bolt) (rules : Rules) where
  -- The input spends an output that is there, with unlock conditions that hash to its own.
  unfoldable pub SpendsOutput : db.Bucket SiacoinOutput → SiacoinInput → Type 0
  SpendsOutput b sci =
      (sco : SiacoinOutput) × (db.get sci.parent_id b ≡ some sco)
      × (unlock_hash rules.crypto sci.unlock_conditions ≡ sco.unlock_hash)

  -- What the input's output is worth, 0 where there is none.
  abbrev pub spent_value : db.Bucket SiacoinOutput → SiacoinInput → Currency
  spent_value b sci = (or_zero_siacoin_output (db.get sci.parent_id b)).value

  input_sum-spends :
      (b : db.Bucket SiacoinOutput) (total r : Currency) (scis : List SiacoinInput)
      → input_sum db rules b total scis ≡ inr r
      → All (SpendsOutput b) scis × (r ≡ total + sum_of (spent_value b) scis)
  unfolding input_sum SpendsOutput add
  input_sum-spends b total r [] h = (tt, let e = inr-injective _ _ h in omega arith)
  input_sum-spends b total r (sci ∷ scis) h = elim (Option-cases (db.get sci.parent_id b)) [
    | inl e ↦ inl-inr missing_siacoin_output r (rw (input_sum, e) at h)
    | inr (sco, e) ↦
        elim (Bool-cases (unlock_hash rules.crypto sci.unlock_conditions == sco.unlock_hash)) [
          | inl u ↦
              let (spends, sum) =
                input_sum-spends b (total + sco.value) r scis (rw (input_sum, e, u) at h) in
              let worth : spent_value b sci ≡ sco.value =
                ap (λ o. (or_zero_siacoin_output o).value) e in
              (((sco, e, ==→eq _ _ u), spends), omega (arith))
          | inr u ↦ inl-inr wrong_unlock_conditions r (rw (input_sum, e, u) at h)
        ]
  ]

  spends-input_sum :
      (b : db.Bucket SiacoinOutput) (total : Currency) (scis : List SiacoinInput)
      → All (SpendsOutput b) scis
      → input_sum db rules b total scis ≡ inr (total + sum_of (spent_value b) scis)
  unfolding input_sum SpendsOutput add
  spends-input_sum b total [] h = ap inr (omega arith)
  spends-input_sum b total (sci ∷ scis) ((sco, e, u), h) =
      rw (input_sum, e, eq→== _ _ u)
        (spends-input_sum b (total + sco.value) scis h
          ∙ ap inr (
              let worth : spent_value b sci ≡ sco.value =
                ap (λ o. (or_zero_siacoin_output o).value) e in
              omega arith))

  -- `validSiacoins` accepts exactly when each input spends an output that is there, under its unlock
  -- conditions, and the inputs are worth the outputs, the contracts' payouts and the fees together.
  pub valid_siacoins_iff :
      (s : State db) (t : Transaction)
      → (valid_siacoins db rules s t ≡ none) ↔ (
          All (SpendsOutput s.siacoin_outputs) t.siacoin_inputs
          × (sum_of (spent_value s.siacoin_outputs) t.siacoin_inputs
              ≡ sum_of SiacoinOutput.value t.siacoin_outputs
                + sum_of FileContract.payout t.file_contracts
                + sum_of (λ fee. fee) t.miner_fees))
  unfolding valid_siacoins
  valid_siacoins_iff s t =
      let sum = input_sum db rules s.siacoin_outputs 0 t.siacoin_inputs in
      (
        λ h. elim (Sum-cases sum) [
          | inl (e, p) ↦ none-some e (sym (rw (valid_siacoins, p) at h))
          | inr (r, p) ↦
              let (spends, worth) = input_sum-spends s.siacoin_outputs 0 r t.siacoin_inputs p in
              let h' : (if r == siacoin_output_sum t
                    then none
                    else some siacoin_input_output_mismatch)
                  ≡ none =
                unfold equals in (rw (valid_siacoins, p) at h) in
              (
                spends,
                elim (Bool-cases (r == siacoin_output_sum t)) [
                  | inl q ↦
                      let balanced = ==→eq r (siacoin_output_sum t) q in
                      omega (arith, siacoin_output_sum_lem t)
                  | inr q ↦ none-some siacoin_input_output_mismatch (sym (rw q at h'))
                ],
              )
        ],
        λ (spends, balanced).
            let total = sum_of (spent_value s.siacoin_outputs) t.siacoin_inputs in
            let equal : 0 + total ≡ siacoin_output_sum t =
              omega (arith, siacoin_output_sum_lem t) in
            rw (valid_siacoins, spends-input_sum s.siacoin_outputs 0 t.siacoin_inputs spends)
              (rw (equals, eq→== (0 + total) (siacoin_output_sum t) equal) refl),
      )
