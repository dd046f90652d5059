-- ===== src/Types/Subsidy.antt =====
-- The block subsidy of types/block.go: the coinbase, the share of the dev fund, the miner's share and
-- the coins in circulation.
pub mod Laws
pub mod Circulation
use sia_prime.Prelude.{
  ℕ, ◌+◌, ◌*◌, ◌/◌, ◌-◌, ◌<◌, Bool, true, ◌&&◌, ◌||◌, List, [], ◌∷◌, arith, ltb, leb, if◌then◌else◌,
}
use sia_prime.Types.Data.{Currency, BlockHeight, Transaction, Block}
use sia_prime.Types.Currency.{add, sub, mul, div}
use sia_prime.Types.Network.{Network, add64, sub64, mul64}

abbrev pub initial_coinbase : ℕ
initial_coinbase = 300_000

abbrev pub siacoin_precision : Currency
siacoin_precision = 1_000_000_000_000_000_000_000_000

abbrev pub dev_fund_enabled : Bool
dev_fund_enabled = true

abbrev pub dev_fund_initial_block_height : BlockHeight
dev_fund_initial_block_height = 1

abbrev pub dev_fund_decay_start : BlockHeight
dev_fund_decay_start = 30_000

abbrev pub dev_fund_decay_end : BlockHeight
dev_fund_decay_end = 105_000

abbrev pub dev_fund_initial_percentage : ℕ
dev_fund_initial_percentage = 20

abbrev pub dev_fund_final_percentage : ℕ
dev_fund_final_percentage = 10

-- The four airdrops of the genesis block.
abbrev pub airdrop_coins : Currency
airdrop_coins =
    10_000_000_000 * siacoin_precision
    + 51_840_000 * siacoin_precision
    + 300_000_000 * siacoin_precision
    + 200_000_000 * siacoin_precision

unfoldable pub coinbase_base : Network → BlockHeight → ℕ
coinbase_base net height =
    let base = sub64 initial_coinbase height in
    if ltb initial_coinbase height || ltb base net.minimum_coinbase
    then net.minimum_coinbase
    else base

unfoldable pub calculate_coinbase : Network → BlockHeight → Currency
unfolding coinbase_base mul
calculate_coinbase net height = mul (coinbase_base net height) siacoin_precision

-- The branches on the height give the percentage of the decaying part that is left.
unfoldable pub dev_fund_decay_percentage : BlockHeight → ℕ
dev_fund_decay_percentage height =
    if leb dev_fund_decay_end height
    then 0
    else if leb dev_fund_decay_start height
    then sub64 100 (
        mul64 (sub64 height dev_fund_decay_start) 100
        / sub64 dev_fund_decay_end dev_fund_decay_start)
    else 100

-- In hundredths of a percent.
unfoldable pub dev_fund_percentage : BlockHeight → ℕ
unfolding dev_fund_decay_percentage
dev_fund_percentage height =
    let range = sub64 dev_fund_initial_percentage dev_fund_final_percentage in
    add64 (mul64 dev_fund_final_percentage 100) (mul64 range (dev_fund_decay_percentage height))

pub ten_thousand-pos : 0 < 10_000
ten_thousand-pos = omega arith

unfoldable pub calculate_dev_subsidy : Network → BlockHeight → Currency
unfolding mul div
calculate_dev_subsidy net height =
    if dev_fund_enabled && leb dev_fund_initial_block_height height
    then div (mul (calculate_coinbase net height) (dev_fund_percentage height)) 10_000
        ten_thousand-pos
    else 0

unfoldable pub add_fees : Currency → List Currency → Currency
add_fees acc [] = acc
add_fees acc (fee ∷ fees) = add_fees (add acc fee) fees

-- The nested loop over the transactions' miner fees, from the running sum.
unfoldable pub add_miner_fees : Currency → List Transaction → Currency
add_miner_fees acc [] = acc
add_miner_fees acc (t ∷ ts) = add_miner_fees (add_fees acc t.miner_fees) ts

unfoldable pub calculate_miner_fees : Block → Currency
calculate_miner_fees b = add_miner_fees 0 b.transactions

unfoldable pub calculate_subsidy : Network → Block → BlockHeight → Currency
calculate_subsidy net b height = add_miner_fees (calculate_coinbase net height) b.transactions

-- The miner's and the dev fund's subsidy.
unfoldable pub calculate_subsidies : Network → Block → BlockHeight → Currency × Currency
calculate_subsidies net b height =
    let coinbase = calculate_coinbase net height in
    let dev_subsidy = calculate_dev_subsidy net height in
    (add (sub coinbase dev_subsidy) (calculate_miner_fees b), dev_subsidy)

pub two-pos : 0 < 2
two-pos = omega arith

unfoldable pub calculate_num_siacoins : Network → BlockHeight → Currency
calculate_num_siacoins net height =
    let deflation_blocks = sub64 initial_coinbase net.minimum_coinbase in
    let average = div (add (calculate_coinbase net 0) (calculate_coinbase net height)) 2 two-pos in
    if leb height deflation_blocks
    then add airdrop_coins (mul average (add64 height 1))
    else add airdrop_coins (
        add (mul average (add64 deflation_blocks 1))
          (mul (sub64 height deflation_blocks) (calculate_coinbase net height)))
