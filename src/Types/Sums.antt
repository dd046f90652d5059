-- ===== src/Types/Sums.antt =====
-- `SiacoinOutputSum` of types/transactions.go.
use sia_prime.Prelude.{sum_of, ℕ, ◌+◌, ◌≡◌, List, [], ◌∷◌, arith}
use sia_prime.Types.Data.{Currency, SiacoinOutput, FileContract, Transaction}
use sia_prime.Types.Currency.{add}
use sia_prime.Types.Subsidy.{add_fees}
use sia_prime.Types.Validity.{add_outputs}
use sia_prime.Types.Validity.Laws.{add_outputs_lem}

unfoldable add_payouts : Currency → List FileContract → Currency
add_payouts total [] = total
add_payouts total (fc ∷ fcs) = add_payouts (add total fc.payout) fcs

unfoldable pub siacoin_output_sum : Transaction → Currency
unfolding add_payouts
siacoin_output_sum t =
    add_fees (add_payouts (add_outputs 0 t.siacoin_outputs) t.file_contracts) t.miner_fees

add_payouts_lem :
    (total : ℕ) (fcs : List FileContract)
    → add_payouts total fcs ≡ total + sum_of FileContract.payout fcs
unfolding add_payouts add
add_payouts_lem total [] = omega arith
add_payouts_lem total (fc ∷ fcs) = omega (arith, add_payouts_lem (total + fc.payout) fcs)

add_fees_lem :
    (total : ℕ) (fees : List Currency) → add_fees total fees ≡ total + sum_of (λ fee. fee) fees
unfolding add_fees add
add_fees_lem total [] = omega arith
add_fees_lem total (fee ∷ fees) = omega (arith, add_fees_lem (total + fee) fees)

-- The siacoins that leave a transaction: its outputs, its contracts' payouts and its fees.
pub siacoin_output_sum_lem :
    (t : Transaction)
    → siacoin_output_sum t
      ≡ sum_of SiacoinOutput.value t.siacoin_outputs
        + sum_of FileContract.payout t.file_contracts
        + sum_of (λ fee. fee) t.miner_fees
unfolding siacoin_output_sum
siacoin_output_sum_lem t = omega (
  arith,
  add_fees_lem (add_payouts (add_outputs 0 t.siacoin_outputs) t.file_contracts) t.miner_fees,
  add_payouts_lem (add_outputs 0 t.siacoin_outputs) t.file_contracts,
  add_outputs_lem 0 t.siacoin_outputs,
)
