-- ===== src/Types/Subsidy/Circulation.antt =====
-- `CalculateNumSiacoins` (types/block.go) against the sum of the coinbases.
use Prim.Native.Nat.add
use sia_prime.Prelude.{
  ℕ, zero, suc, ◌+◌, ◌*◌, ◌/◌, ◌-◌, ◌^◌, ◌≤◌, ◌<◌, ◌≡◌, ap, arith, leb, inl, inr, Bool-cases,
  leb→le,
}
use sia_prime.Types.Data.{Currency, BlockHeight}
use sia_prime.Types.Currency.{add as add_currency, mul, div}
use sia_prime.Types.Network.{Network, add64, sub64}
use sia_prime.Types.Subsidy.{
  initial_coinbase, siacoin_precision, airdrop_coins, calculate_coinbase, calculate_num_siacoins,
}
use sia_prime.Types.Subsidy.Laws.{coinbase_schedule}

-- The coinbases of all blocks up to a height.
abbrev pub coinbase_sum : Network → BlockHeight → Currency
coinbase_sum net zero = calculate_coinbase net 0
coinbase_sum net (suc height) = coinbase_sum net height + calculate_coinbase net (suc height)

module _ (net : Network) (minimum : net.minimum_coinbase ≤ initial_coinbase) where
  -- Twice the sum while the coinbase still falls, in half siacoins.
  sum_falling :
      (height : BlockHeight)
      → height + net.minimum_coinbase ≤ initial_coinbase
      → 2 * coinbase_sum net height + height * (height + 1) * siacoin_precision
        ≡ 600_000 * (height + 1) * siacoin_precision
  sum_falling zero h = omega (arith, coinbase_schedule net 0 (omega arith))
  sum_falling (suc height) h =
      omega
        (arith, coinbase_schedule net (suc height) (omega arith), sum_falling height (omega arith))

  sum_level :
      (extra start : BlockHeight)
      → start + net.minimum_coinbase ≡ initial_coinbase
      → extra + start < 2 ^ 64
      → coinbase_sum net (extra + start)
        ≡ coinbase_sum net start + extra * net.minimum_coinbase * siacoin_precision
  sum_level zero start e h = rw (add.zero start) (omega arith)
  sum_level (suc extra) start e h = rw (add.suc extra start) (
      omega (
        arith,
        coinbase_schedule net (suc (extra + start)) (omega arith),
        sum_level extra start e (omega arith),
      ))

  -- While the coinbase falls the average of its first and last value, times the number of blocks.
  total_falling :
      (height : BlockHeight)
      → height + net.minimum_coinbase ≤ initial_coinbase
      → (calculate_coinbase net 0 + calculate_coinbase net height) / 2 * (height + 1)
        ≡ coinbase_sum net height
  total_falling height h =
      let rest : ℕ = 600_000 - height in
      let e : rest + height ≡ 600_000 = omega arith in
      let average : (calculate_coinbase net 0 + calculate_coinbase net height) / 2
          ≡ rest * 500_000_000_000_000_000_000_000 =
        omega (
          arith,
          coinbase_schedule net 0 (omega arith),
          coinbase_schedule net height (omega arith),
        ) in
      rw average (
        omega (arith, sum_falling height h, ap (λ (t : ℕ). t * (height + 1) * siacoin_precision) e))

  -- Behind the falling part every block adds the minimum.
  total_level :
      (height d : BlockHeight)
      → d + net.minimum_coinbase ≡ initial_coinbase
      → d ≤ height
      → height < 2 ^ 64
      → (calculate_coinbase net 0 + calculate_coinbase net height) / 2 * (d + 1)
          + (height - d) * calculate_coinbase net height
        ≡ coinbase_sum net height
  total_level height d e le h =
      let top : height - d + d ≡ height = omega arith in
      let level : calculate_coinbase net height ≡ net.minimum_coinbase * siacoin_precision =
        omega (arith, coinbase_schedule net height h) in
      let start : calculate_coinbase net d ≡ net.minimum_coinbase * siacoin_precision =
        omega (arith, coinbase_schedule net d (omega arith)) in
      let half : (calculate_coinbase net 0 + net.minimum_coinbase * siacoin_precision) / 2 * (d + 1)
          ≡ coinbase_sum net d =
        rw start at (total_falling d (omega arith)) in
      let rest : coinbase_sum net height
          ≡ coinbase_sum net d + (height - d) * net.minimum_coinbase * siacoin_precision =
        rw top at (sum_level (height - d) d e (omega arith)) in
      rw (level, half) (omega (arith, rest))

  -- The count of the coins in circulation at a height is the airdrops and all coinbases up to it.
  pub num_siacoins-eq_sum :
      (height : BlockHeight)
      → height < 2 ^ 64 - 1
      → calculate_num_siacoins net height ≡ airdrop_coins + coinbase_sum net height
  unfolding calculate_num_siacoins add_currency mul div
  num_siacoins-eq_sum height h =
      let d : ℕ = initial_coinbase - net.minimum_coinbase in
      let blocks : sub64 initial_coinbase net.minimum_coinbase ≡ d = omega arith in
      let next : add64 height 1 ≡ height + 1 = omega arith in
      elim (Bool-cases (leb height d)) [
        | inl e ↦
            rw (blocks, e, next)
              (ap (λ (t : ℕ). airdrop_coins + t)
                (total_falling height (omega (arith, leb→le height d e))))
        | inr e ↦
            let le : d ≤ height = ground arith in
            let over : sub64 height d ≡ height - d = omega arith in
            let d_next : add64 d 1 ≡ d + 1 = omega arith in
            rw (blocks, e, d_next, over)
              (ap (λ (t : ℕ). airdrop_coins + t)
                (total_level height d (omega arith) le (omega arith)))
      ]
