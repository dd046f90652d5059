-- ===== src/Types/Subsidy/Laws.antt =====
-- The coinbase schedule, the bounds of the dev fund's share, and the count of coins in circulation.
use sia_prime.Prelude.{ℕ, ◌+◌, ◌*◌, ◌-◌, ◌^◌, ◌≤◌, ◌<◌, ◌≡◌, ap, List, [], ◌∷◌, arith, sum_of}
use Prim.Native.Nat.{max}
use sia_prime.Types.Data.{Currency, BlockHeight, Transaction, Block}
use sia_prime.Types.Currency.{add, sub}
use sia_prime.Types.Network.{Network}
use sia_prime.Types.Subsidy.{
  initial_coinbase, siacoin_precision, coinbase_base, calculate_coinbase, dev_fund_percentage,
  calculate_dev_subsidy, add_fees, add_miner_fees, calculate_miner_fees, calculate_subsidy,
  calculate_subsidies,
}

pub coinbase_base-eq :
    (net : Network) (height : BlockHeight)
    → height < 2 ^ 64
    → coinbase_base net height ≡ max (initial_coinbase - height) net.minimum_coinbase
unfolding coinbase_base
coinbase_base-eq net height h = ground arith

-- The coinbase falls by one coin a block from the initial one down to the minimum, also where the
-- subtraction of the height wraps around.
pub coinbase_schedule :
    (net : Network) (height : BlockHeight)
    → height < 2 ^ 64
    → calculate_coinbase net height
      ≡ max (initial_coinbase - height) net.minimum_coinbase * siacoin_precision
unfolding calculate_coinbase
coinbase_schedule net height h =
    ap (λ (t : ℕ). t * siacoin_precision) (coinbase_base-eq net height h)

-- The dev fund's percentage: 20 before the decay, 10 after it, and never outside that range.
pub dev_fund_percentage_bounds :
    (height : BlockHeight)
    → height < 2 ^ 64
    → (1000 ≤ dev_fund_percentage height) × (dev_fund_percentage height ≤ 2000)
unfolding dev_fund_percentage
dev_fund_percentage_bounds height h = ground arith

-- It never rises with the height.
pub dev_fund_percentage_antitone :
    (low high : BlockHeight)
    → low ≤ high
    → high < 2 ^ 64
    → dev_fund_percentage high ≤ dev_fund_percentage low
unfolding dev_fund_percentage
dev_fund_percentage_antitone low high h k = ground arith

pub dev_subsidy_bound :
    (net : Network) (height : BlockHeight)
    → height < 2 ^ 64
    → 5 * calculate_dev_subsidy net height ≤ calculate_coinbase net height
unfolding calculate_dev_subsidy
dev_subsidy_bound net height h = grind (arith, dev_fund_percentage_bounds height h)

add_fees-eq :
    (acc : Currency) (fees : List Currency) → add_fees acc fees ≡ acc + sum_of (λ f. f) fees
unfolding add_fees add
add_fees-eq acc [] = omega arith
add_fees-eq acc (f ∷ fs) = omega (arith, add_fees-eq (acc + f) fs)

add_miner_fees-eq :
    (acc : Currency) (ts : List Transaction)
    → add_miner_fees acc ts ≡ acc + sum_of (λ t. sum_of (λ f. f) t.miner_fees) ts
unfolding add_miner_fees
add_miner_fees-eq acc [] = omega arith
add_miner_fees-eq acc (t ∷ ts) =
    omega (arith, add_fees-eq acc t.miner_fees, add_miner_fees-eq (add_fees acc t.miner_fees) ts)

-- The two subsidies together are the coinbase and the fees: the split of the block reward creates
-- and loses nothing.
pub subsidies_add_up :
    (net : Network) (b : Block) (height : BlockHeight)
    → height < 2 ^ 64
    → (calculate_subsidies net b height).0 + (calculate_subsidies net b height).1
      ≡ calculate_subsidy net b height
unfolding calculate_subsidies calculate_subsidy calculate_miner_fees add sub
subsidies_add_up net b height h = ground (
  arith,
  dev_subsidy_bound net height h,
  add_miner_fees-eq 0 b.transactions,
  add_miner_fees-eq (calculate_coinbase net height) b.transactions,
)
