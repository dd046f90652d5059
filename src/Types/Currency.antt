-- ===== src/Types/Currency.antt =====
-- The methods of `Currency` (types/currency.go) and the file contract tax (types/filecontracts.go).
-- `big.Int` panics when it divides by zero, so a divisor comes with the proof that it is positive:
-- every caller that is modelled divides by a positive constant.
pub mod Laws
use sia_prime.Prelude.{
  ℕ, ◌+◌, ◌-◌, ◌*◌, ◌/◌, ◌%◌, ◌^◌, ◌<◌, Bool, Option, none, some, arith, ltb, leb, ◌==◌,
  if◌then◌else◌, List, [], ◌∷◌, true, false,
}
use sia_prime.Types.Data.{Currency, BlockHeight}

unfoldable pub add : Currency → Currency → Currency
add x y = x + y

-- `build.Critical` only reports outside debug builds; the result is then `ZeroCurrency`.
unfoldable pub sub : Currency → Currency → Currency
sub x y = if ltb x y then 0 else x - y

unfoldable pub mul : Currency → Currency → Currency
mul x y = x * y

unfoldable pub div : Currency → (y : Currency) → 0 < y → Currency
div x y _ = x / y

unfoldable pub equals : Currency → Currency → Bool
equals x y = x == y

-- A big.Int with sign at most 0.
unfoldable pub is_zero : Currency → Bool
is_zero x = leb x 0

unfoldable pub round_down : Currency → (y : Currency) → 0 < y → Currency
round_down x y _ = x - x % y

-- The value of a 256-bit mantissa is exact in `big.Rat`: `num / den` is the multiplier.
unfoldable pub mul_rat : Currency → ℕ → (den : ℕ) → 0 < den → Currency
mul_rat x num den _ = x * num / den

unfoldable pub mul_tax : Currency → Currency
mul_tax x = x * 39 / 1000

-- `none` is ErrUint64Overflow.
unfoldable pub to_uint64 : Currency → Option ℕ
to_uint64 x = if ltb (2 ^ 64 - 1) x then none else some x

abbrev pub siafund_count : Currency
siafund_count = 10000

pub siafund_count-pos : 0 < siafund_count
siafund_count-pos = omega arith

-- The literal 0.039 as a float64 is this fraction.
abbrev pub tax_float_num : ℕ
tax_float_num = 5620492334958379

abbrev pub tax_float_den : ℕ
tax_float_den = 144115188075855872

pub tax_float_den-pos : 0 < tax_float_den
tax_float_den-pos = omega arith

-- `MulFloat(0.039)`: the float is not negative, and the product is rounded down.
unfoldable pub mul_float_tax : Currency → Currency
unfolding mul_rat
mul_float_tax x = mul_rat x tax_float_num tax_float_den tax_float_den-pos

-- `Tax`, at the network's `TaxHardforkHeight`.
unfoldable pub tax : BlockHeight → BlockHeight → Currency → Currency
unfolding mul_float_tax mul_tax round_down
tax hardfork height payout =
    if ltb height hardfork
    then round_down (mul_float_tax payout) siafund_count siafund_count-pos
    else round_down (mul_tax payout) siafund_count siafund_count-pos

unfoldable pub post_tax : BlockHeight → BlockHeight → Currency → Currency
unfolding sub tax
post_tax hardfork height payout = sub payout (tax hardfork height payout)
