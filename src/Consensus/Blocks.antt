-- ===== src/Consensus/Blocks.antt =====
-- modules/consensus/block_validation.go: the checks of a block that need no state.
pub mod Laws
use sia_prime.Prelude.{
  ltb, leb, ◌==◌, if◌then◌else◌, leb→le, ltb→lt, ==→eq, ==→ne, eq→==, Bool-cases, Option-cases,
  length, get_elem?, take, drop, replicate, All, sum_of, length-append, take-length_append,
  drop-length_append, sum_of-append, drop-append, ℕ, zero, suc, ◌+◌, ◌-◌, ◌*◌, ◌/◌, ◌%◌, ◌^◌, ◌≤◌,
  ◌<◌, inr-injective, ◌≡◌, refl, sym, ap, ◌∙◌, subst, ◌≢◌, ◌↔◌, ◌⊎◌, inl, inr, Bool, true, false,
  not, ◌&&◌, ◌||◌, Option, none, some, some-injective, List, [], ◌∷◌, ◌++◌, map, append-nil,
  append_assoc, arith,
}
use sia_prime.Types.Data.{
  Currency, Hash, BlockHeight, SiaPublicKey, UnlockConditions, SiacoinInput, SiacoinOutput,
  SiafundInput, SiafundOutput, FileContract, FileContractRevision, StorageProof, CoveredFields,
  TransactionSignature, Transaction, Block, BlockHeader,
}
use sia_prime.Types.Network.{Network, standard, add64, sub64, mul64}
use sia_prime.Types.Currency.{
  add, sub, mul, div, equals, is_zero, round_down, mul_rat, mul_tax, to_uint64, siafund_count,
  siafund_count-pos, tax_float_num, tax_float_den, tax_float_den-pos, mul_float_tax, tax, post_tax,
}
use sia_prime.Types.Subsidy.{
  initial_coinbase, siacoin_precision, dev_fund_enabled, dev_fund_initial_block_height,
  dev_fund_decay_start, dev_fund_decay_end, dev_fund_initial_percentage, dev_fund_final_percentage,
  airdrop_coins, coinbase_base, calculate_coinbase, dev_fund_decay_percentage, dev_fund_percentage,
  ten_thousand-pos, calculate_dev_subsidy, add_fees, add_miner_fees, calculate_miner_fees,
  calculate_subsidy, calculate_subsidies, two-pos, calculate_num_siacoins,
}
use sia_prime.Types.Marshal.Encode.{
  write_hash, write_specifier, write_prefix, write_slice, marshal_public_key,
  marshal_unlock_conditions, marshal_siacoin_input, marshal_siacoin_output, marshal_siafund_input,
  marshal_siafund_output, marshal_file_contract, marshal_file_contract_revision,
  marshal_storage_proof, write_bool, marshal_covered_fields, marshal_transaction_signature,
  marshal_no_signatures, marshal_transaction, marshal_block,
}
use sia_prime.Types.Validity.{block_size_limit}

pub data BlockError : Type 0 where
  early_timestamp nonce_requirements block_unsolved large_block : BlockError
  extreme_future_timestamp bad_miner_payouts future_timestamp : BlockError

-- The addresses, without their checksums.
abbrev dev_fund_unlock_hash : Hash
dev_fund_unlock_hash = 79151290361637621671575465041847278816810685005284771283617709046632099417721

abbrev burn_address_unlock_hash : Hash
burn_address_unlock_hash = 0

abbrev burn_address_block_height : BlockHeight
burn_address_block_height = 105000

abbrev pub asic_hardfork_factor : ℕ
asic_hardfork_factor = 1

-- The loop that adds the payouts: `none` at one of zero value.
unfoldable pub sum_payouts : Currency → List SiacoinOutput → Option Currency
unfolding is_zero
sum_payouts total [] = some total
sum_payouts total (p ∷ ps) =
    let rest = sum_payouts (add total p.value) ps in if is_zero p.value then none else rest

unfoldable pub check_miner_payouts_without_dev_fund : Network → Block → BlockHeight → Bool
check_miner_payouts_without_dev_fund net b height = elim (sum_payouts 0 b.miner_payouts) [
  | none ↦ false
  | some payout_sum ↦ equals (calculate_subsidy net b height) payout_sum
]

-- The address of the dev fund's payout at a height.
unfoldable pub subsidy_unlock_hash : BlockHeight → Hash
subsidy_unlock_hash height =
    if not (burn_address_block_height == 0) && leb burn_address_block_height height
    then burn_address_unlock_hash
    else dev_fund_unlock_hash

-- The checks of the last payout, which is the dev fund's, and of the sum of the others.
unfoldable pub check_split : Network → Block → BlockHeight → SiacoinOutput → Currency → Bool
check_split net b height dev_payout miner_payout_sum =
    let (miner_subsidy, dev_subsidy) = calculate_subsidies net b height in
    if not (equals dev_payout.value dev_subsidy)
    then false
    else if not (dev_payout.unlock_hash == subsidy_unlock_hash height)
    then false
    else equals miner_subsidy miner_payout_sum

unfoldable pub check_miner_payouts_with_dev_fund : Network → Block → BlockHeight → Bool
check_miner_payouts_with_dev_fund net b height =
    let count = length b.miner_payouts in
    if ltb count 2 then false else elim (sum_payouts 0 (take (count - 1) b.miner_payouts)) [
      | none ↦ false
      | some miner_payout_sum ↦ elim (get_elem? b.miner_payouts (count - 1)) [
        | none ↦ false
        | some dev_payout ↦ check_split net b height dev_payout miner_payout_sum
      ]
    ]

unfoldable pub check_miner_payouts : Network → Block → BlockHeight → Bool
check_miner_payouts net b height =
    if dev_fund_enabled && leb dev_fund_initial_block_height height
    then check_miner_payouts_with_dev_fund net b height
    else check_miner_payouts_without_dev_fund net b height

-- Bytes that are compared from the most significant one on are compared as numbers.
unfoldable pub check_target : Hash → ℕ → Bool
check_target id target = leb id target

-- Given the time of the clock. `none` is a nil error.
unfoldable pub validate_block : Network → ℕ → Block → Hash → ℕ → ℕ → BlockHeight → Option BlockError
unfolding check_target
validate_block net now b id min_timestamp target height =
    if ltb b.timestamp min_timestamp
    then some early_timestamp
    else if leb net.asic_hardfork_height height && not (b.nonce % asic_hardfork_factor == 0)
    then some nonce_requirements
    else if not (check_target id target)
    then some block_unsolved
    else if ltb block_size_limit (length (marshal_block b))
    then some large_block
    else if ltb (add64 now net.extreme_future_threshold) b.timestamp
    then some extreme_future_timestamp
    else if not (check_miner_payouts net b height)
    then some bad_miner_payouts
    else if ltb (add64 now net.future_threshold) b.timestamp
    then some future_timestamp
    else none
