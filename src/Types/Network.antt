-- ===== src/Types/Network.antt =====
-- The constants of types/constants.go that a build's release chooses, as a record, with the values of
-- the full network; and the arithmetic of uint64.
use sia_prime.Prelude.{ℕ, ◌+◌, ◌-◌, ◌*◌, ◌%◌, ◌^◌}
use sia_prime.Types.Data.{BlockHeight}

pub record Network : Type 0 where
  pub asic_hardfork_height : BlockHeight
  pub maturity_delay : BlockHeight
  pub tax_hardfork_height : BlockHeight
  pub oak_hardfork_block : BlockHeight
  pub minimum_coinbase : ℕ
  pub future_threshold : ℕ
  pub extreme_future_threshold : ℕ

-- build.Release == "standard"
abbrev pub standard : Network
standard = record {
  asic_hardfork_height = 9223372036854775807;
  maturity_delay = 144;
  tax_hardfork_height = 21000;
  oak_hardfork_block = 1500;
  minimum_coinbase = 10000;
  future_threshold = 10800;
  extreme_future_threshold = 18000;
}

-- uint64 arithmetic wraps around.
abbrev pub add64 : ℕ → ℕ → ℕ
add64 a b = (a + b) % 2 ^ 64

abbrev pub sub64 : ℕ → ℕ → ℕ
sub64 a b = (a + 2 ^ 64 - b) % 2 ^ 64

abbrev pub mul64 : ℕ → ℕ → ℕ
mul64 a b = a * b % 2 ^ 64
