-- ===== src/Consensus/Blocks/Laws.antt =====
-- modules/consensus/block_validation.go: an accepted block pays out its subsidy, and is accepted
-- exactly when it follows the rules.
use sia_prime.Prelude.{
  ltb, leb, ==→eq, Bool-cases, Option-cases, length, get_elem?, take, sum_of, ℕ, zero, suc, ◌+◌,
  ◌-◌, ◌^◌, ◌≤◌, ◌<◌, ◌≡◌, ap, ◌↔◌, inl, inr, true, false, none, some, some-injective, List, [],
  ◌∷◌, arith,
}
use sia_prime.Types.Data.{Currency, Hash, BlockHeight, SiacoinOutput, Block}
use sia_prime.Types.Network.{Network, add64}
use sia_prime.Types.Currency.{add, equals, is_zero}
use sia_prime.Types.Subsidy.{dev_fund_initial_block_height, calculate_subsidy, calculate_subsidies}
use sia_prime.Types.Subsidy.Laws.{subsidies_add_up}
use sia_prime.Types.Marshal.Encode.{marshal_block}
use sia_prime.Consensus.Panic.{none-some}
use sia_prime.Consensus.Blocks.{
  sum_payouts, check_miner_payouts_without_dev_fund, subsidy_unlock_hash, check_split,
  check_miner_payouts_with_dev_fund, check_miner_payouts, validate_block,
}

sum_payouts_lem :
    (total r : Currency) (ps : List SiacoinOutput)
    → sum_payouts total ps ≡ some r
    → r ≡ total + sum_of SiacoinOutput.value ps
unfolding sum_payouts add
sum_payouts_lem total r [] h = let e = some-injective _ _ h in omega arith
sum_payouts_lem total r (p ∷ ps) h = elim (Bool-cases (is_zero p.value)) [
  | inl e ↦ none-some r (rw (sum_payouts, e) at h)
  | inr e ↦
      let rest = sum_payouts_lem (total + p.value) r ps (rw (sum_payouts, e) at h) in omega arith
]

-- All elements but the last, and the last, add up to all.
sum_of_last :
    (n : ℕ) (ps : List SiacoinOutput) (last : SiacoinOutput)
    → length ps ≡ suc n
    → get_elem? ps n ≡ some last
    → sum_of SiacoinOutput.value (take n ps) + last.value ≡ sum_of SiacoinOutput.value ps
sum_of_last n [] last e h = none-some last h
sum_of_last zero (p ∷ []) last e h =
    let v = ap SiacoinOutput.value (some-injective _ _ h) in omega arith
sum_of_last zero (p ∷ q ∷ ps) last e h = absurd (omega arith)
sum_of_last (suc n) (p ∷ ps) last e h = let r = sum_of_last n ps last (omega arith) h in omega arith

false-true : {C : Type 0} → false ≡ true → C
false-true h = absurd (grind arith)

without-subsidy :
    (net : Network) (b : Block) (height : BlockHeight)
    → check_miner_payouts_without_dev_fund net b height ≡ true
    → sum_of SiacoinOutput.value b.miner_payouts ≡ calculate_subsidy net b height
unfolding check_miner_payouts_without_dev_fund equals
without-subsidy net b height h = elim (Option-cases (sum_payouts 0 b.miner_payouts)) [
  | inl e ↦ false-true (rw (check_miner_payouts_without_dev_fund, e) at h)
  | inr (total, e) ↦
      let sum = sum_payouts_lem 0 total b.miner_payouts e in
      let balanced =
        ==→eq (calculate_subsidy net b height) total
          (unfold equals in (rw (check_miner_payouts_without_dev_fund, e) at h)) in
      omega arith
]

-- The split passes only where the two sums are the two subsidies.
check_split_lem :
    (net : Network) (b : Block) (height : BlockHeight) (dev_payout : SiacoinOutput) (r : Currency)
    → check_split net b height dev_payout r ≡ true
    → (dev_payout.value ≡ (calculate_subsidies net b height).1)
      × (r ≡ (calculate_subsidies net b height).0)
      × (dev_payout.unlock_hash ≡ subsidy_unlock_hash height)
unfolding check_split equals
check_split_lem net b height dev_payout r h = (ground arith, ground arith, ground arith)

with-subsidy :
    (net : Network) (b : Block) (height : BlockHeight)
    → height < 2 ^ 64
    → check_miner_payouts_with_dev_fund net b height ≡ true
    → sum_of SiacoinOutput.value b.miner_payouts ≡ calculate_subsidy net b height
unfolding check_miner_payouts_with_dev_fund
with-subsidy net b height bound h =
    let count = length b.miner_payouts in
    elim (Bool-cases (ltb count 2)) [
      | inl few ↦ false-true (rw (check_miner_payouts_with_dev_fund, few) at h)
      | inr enough ↦
          let more : count ≡ suc (count - 1) = ground arith in
          let h1 = rw (check_miner_payouts_with_dev_fund, enough) at h in
          elim (Option-cases (sum_payouts 0 (take (count - 1) b.miner_payouts))) [
            | inl e ↦ false-true (rw e at h1)
            | inr (total, e) ↦ elim (Option-cases (get_elem? b.miner_payouts (count - 1))) [
              | inl e' ↦ false-true (rw (e, e') at h1)
              | inr (last, e') ↦
                  let (dev, miner, _) =
                    check_split_lem net b height last total (rw (e, e') at h1) in
                  omega (
                    arith,
                    sum_payouts_lem 0 total (take (count - 1) b.miner_payouts) e,
                    sum_of_last (count - 1) b.miner_payouts last more e',
                    subsidies_add_up net b height bound,
                  )
            ]
          ]
    ]

-- The payouts of a block that passes the check add up to the coinbase at its height and the fees of
-- its transactions, with the dev fund's share and without it.
pub check_miner_payouts-subsidy :
    (net : Network) (b : Block) (height : BlockHeight)
    → height < 2 ^ 64
    → check_miner_payouts net b height ≡ true
    → sum_of SiacoinOutput.value b.miner_payouts ≡ calculate_subsidy net b height
unfolding check_miner_payouts
check_miner_payouts-subsidy net b height bound h =
    elim (Bool-cases (leb dev_fund_initial_block_height height)) [
      | inl e ↦ with-subsidy net b height bound (rw (check_miner_payouts, e) at h)
      | inr e ↦ without-subsidy net b height (rw (check_miner_payouts, e) at h)
    ]

-- `ValidateBlock` accepts a block exactly when its timestamp is at least the minimum, its id is at
-- most the target, it is at most 2,000,000 bytes long, its timestamp is no further ahead of the clock
-- than either limit on the future, and its payouts pass.
pub validate_block_iff :
    (net : Network) (now : ℕ) (b : Block) (id : Hash) (min_timestamp target : ℕ)
    (height : BlockHeight)
    → (validate_block net now b id min_timestamp target height ≡ none) ↔ (
        (min_timestamp ≤ b.timestamp)
        × (id ≤ target)
        × (length (marshal_block b) ≤ 2000000)
        × (b.timestamp ≤ add64 now net.extreme_future_threshold)
        × (check_miner_payouts net b height ≡ true)
        × (b.timestamp ≤ add64 now net.future_threshold))
unfolding validate_block
validate_block_iff net now b id min_timestamp target height = (
  λ h. (ground arith, ground arith, ground arith, ground arith, ground arith, ground arith),
  λ (a, c, d, e, f, g). ground arith,
)
