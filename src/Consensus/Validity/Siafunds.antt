-- ===== src/Consensus/Validity/Siafunds.antt =====
-- modules/consensus/validtransaction.go: which transactions `validSiafunds` accepts.
use sia_prime.Prelude.{
  ◌==◌, if◌then◌else◌, ==→eq, eq→==, Bool-cases, Option-cases, All, sum_of, ◌+◌, inr-injective, ◌≡◌,
  refl, sym, ap, ◌∙◌, ◌↔◌, inl, inr, none, some, List, [], ◌∷◌, arith,
}
use sia_prime.Types.Data.{Currency, SiafundInput, SiafundOutput, Transaction}
use sia_prime.Types.Currency.{add, equals}
use sia_prime.Types.Ids.{unlock_hash}
use sia_prime.Consensus.Bolt.{Bolt}
use sia_prime.Consensus.Data.{State}
use sia_prime.Consensus.Panic.{none-some}
use sia_prime.Consensus.Database.{get_siafund_output}
use sia_prime.Consensus.Apply.{or_zero_siafund_output, Rules}
use sia_prime.Consensus.Validity.{
  nil_item, siafund_input_output_mismatch, wrong_unlock_conditions, add_siafund_outputs,
  siafund_input_sum, valid_siafunds,
}
use sia_prime.Consensus.Validity.Sums.{inl-inr, Sum-cases}

module _ (db : Bolt) (rules : Rules) where
  -- The siafund input spends an output that is there; `getSiafundOutput` gives the developers'
  -- address in place of the last genesis address after block 10,000.
  unfoldable pub SpendsSiafund : State db → SiafundInput → Type 0
  SpendsSiafund s sfi =
      (sfo : SiafundOutput) × (get_siafund_output db rules.last_genesis_hash s.block_height
          sfi.parent_id s.siafund_outputs
        ≡ some sfo)
      × (unlock_hash rules.crypto sfi.unlock_conditions ≡ sfo.unlock_hash)

  abbrev pub spent_siafunds : State db → SiafundInput → Currency
  spent_siafunds s sfi =
      (or_zero_siafund_output (
        get_siafund_output db rules.last_genesis_hash s.block_height sfi.parent_id
          s.siafund_outputs)).value

  siafund_input_sum-spends :
      (s : State db) (total r : Currency) (sfis : List SiafundInput)
      → siafund_input_sum db rules s total sfis ≡ inr r
      → All (SpendsSiafund s) sfis × (r ≡ total + sum_of (spent_siafunds s) sfis)
  unfolding siafund_input_sum SpendsSiafund add
  siafund_input_sum-spends s total r [] h = (tt, let e = inr-injective _ _ h in omega arith)
  siafund_input_sum-spends s total r (sfi ∷ sfis) h =
      elim (Option-cases (
        get_siafund_output db rules.last_genesis_hash s.block_height sfi.parent_id
          s.siafund_outputs)) [
            | inl e ↦ inl-inr nil_item r (rw (siafund_input_sum, e) at h)
            | inr (sfo, e) ↦
                elim (Bool-cases
                  (unlock_hash rules.crypto sfi.unlock_conditions == sfo.unlock_hash)) [
                    | inl u ↦
                        let (spends, sum) =
                          siafund_input_sum-spends s (total + sfo.value) r sfis
                            (rw (siafund_input_sum, e, u) at h) in
                        let worth : spent_siafunds s sfi ≡ sfo.value =
                          ap (λ o. (or_zero_siafund_output o).value) e in
                        (((sfo, e, ==→eq _ _ u), spends), omega arith)
                    | inr u ↦ inl-inr wrong_unlock_conditions r (rw (siafund_input_sum, e, u) at h)
                  ]
          ]

  spends-siafund_input_sum :
      (s : State db) (total : Currency) (sfis : List SiafundInput)
      → All (SpendsSiafund s) sfis
      → siafund_input_sum db rules s total sfis ≡ inr (total + sum_of (spent_siafunds s) sfis)
  unfolding siafund_input_sum SpendsSiafund add
  spends-siafund_input_sum s total [] h = ap inr (omega arith)
  spends-siafund_input_sum s total (sfi ∷ sfis) ((sfo, e, u), h) =
      rw (siafund_input_sum, e, eq→== _ _ u)
        (spends-siafund_input_sum s (total + sfo.value) sfis h
          ∙ ap inr (
              let worth : spent_siafunds s sfi ≡ sfo.value =
                ap (λ o. (or_zero_siafund_output o).value) e in
              omega arith))

  add_siafund_outputs_lem :
      (total : Currency) (os : List SiafundOutput)
      → add_siafund_outputs total os ≡ total + sum_of SiafundOutput.value os
  unfolding add_siafund_outputs add
  add_siafund_outputs_lem total [] = omega arith
  add_siafund_outputs_lem total (o ∷ os) =
      omega (arith, add_siafund_outputs_lem (total + o.value) os)

  -- `validSiafunds` accepts exactly when each siafund input spends an output that is there, under its
  -- unlock conditions, and as many siafunds go out as come in.
  pub valid_siafunds_iff :
      (s : State db) (t : Transaction)
      → (valid_siafunds db rules s t ≡ none) ↔ (
          All (SpendsSiafund s) t.siafund_inputs
          × (sum_of (spent_siafunds s) t.siafund_inputs
              ≡ sum_of SiafundOutput.value t.siafund_outputs))
  unfolding valid_siafunds
  valid_siafunds_iff s t =
      let sum = siafund_input_sum db rules s 0 t.siafund_inputs in
      let out = add_siafund_outputs 0 t.siafund_outputs in
      (
        λ h. elim (Sum-cases sum) [
          | inl (e, p) ↦ none-some e (sym (rw (valid_siafunds, p) at h))
          | inr (r, p) ↦
              let (spends, worth) = siafund_input_sum-spends s 0 r t.siafund_inputs p in
              let h' : (if out == r then none else some siafund_input_output_mismatch) ≡ none =
                unfold equals in (rw (valid_siafunds, p) at h) in
              (
                spends,
                elim (Bool-cases (out == r)) [
                  | inl q ↦
                      let balanced = ==→eq out r q in
                      omega (arith, add_siafund_outputs_lem 0 t.siafund_outputs)
                  | inr q ↦ none-some siafund_input_output_mismatch (sym (rw q at h'))
                ],
              )
        ],
        λ (spends, balanced).
            let total = sum_of (spent_siafunds s) t.siafund_inputs in
            let equal : out ≡ 0 + total =
              omega (arith, add_siafund_outputs_lem 0 t.siafund_outputs) in
            rw (valid_siafunds, spends-siafund_input_sum s 0 t.siafund_inputs spends)
              (rw (equals, eq→== out (0 + total) equal) refl),
      )
