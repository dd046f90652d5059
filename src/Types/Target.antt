-- ===== src/Types/Target.antt =====
-- types/target.go: targets and the sums of difficulties. A target is the number that its bytes spell.
-- `big.Rat` is exact, and panics when zero is inverted, which is `none`.
pub mod Laws
use sia_prime.Prelude.{
  ltb, leb, ◌==◌, if◌then◌else◌, leb→le, ltb→lt, ==→eq, ==→ne, eq→==, Bool-cases, Option-cases,
  length, get_elem?, take, drop, replicate, All, sum_of, length-append, take-length_append,
  drop-length_append, sum_of-append, drop-append, All-append, ℕ, zero, suc, ◌+◌, ◌-◌, ◌*◌, ◌/◌, ◌%◌,
  ◌^◌, ◌≤◌, ◌<◌, inr-injective, ◌≡◌, refl, sym, ap, ◌∙◌, subst, ◌≢◌, ◌↔◌, ◌⊎◌, inl, inr, Bool, true,
  false, not, ◌&&◌, ◌||◌, Option, none, some, some-injective, List, [], ◌∷◌, ◌++◌, map, append-nil,
  append_assoc, arith,
}
use sia_prime.Prelude.Fallible.{◌>>=◌, pure, bind-some, is_some, none-some}
use sia_prime.Types.Data.{
  Currency, Hash, BlockHeight, SiaPublicKey, UnlockConditions, SiacoinInput, SiacoinOutput,
  SiafundInput, SiafundOutput, FileContract, FileContractRevision, StorageProof, CoveredFields,
  TransactionSignature, Transaction, Block, BlockHeader,
}

abbrev pub Target : Type 0
Target = ℕ

-- A big.Rat that is not negative: a quotient, whose denominator is positive, not in lowest terms.
pub record Rat : Type 0 where
  pub num : ℕ
  pub den : ℕ

abbrev pub rat_inv : Rat → Option Rat
rat_inv r = if r.num == 0 then none else some (record { num = r.den; den = r.num })

abbrev pub rat_add : Rat → Rat → Rat
rat_add r s = record { num = r.num * s.den + s.num * r.den; den = r.den * s.den }

abbrev pub rat_mul : Rat → Rat → Rat
rat_mul r s = record { num = r.num * s.num; den = r.den * s.den }

-- All bytes are 255.
abbrev pub root_depth : Target
root_depth = 2 ^ 256 - 1

-- Of more than 256 bits, the maximum.
unfoldable pub int_to_target : ℕ → Target
int_to_target i = if leb (2 ^ 256) i then root_depth else i

unfoldable pub rat : Target → Rat
rat x = record { num = x; den = 1 }

unfoldable pub rat_to_target : Rat → Target
rat_to_target r = int_to_target (r.num / r.den)

unfoldable pub inverse : Target → Option Rat
inverse x = rat_inv (rat x)

unfoldable pub add_difficulties : Target → Target → Option Target
unfolding inverse rat
add_difficulties x y = do
  x_inverse ← inverse x
  y_inverse ← inverse y
  sum ← rat_inv (rat_add x_inverse y_inverse)
  some (rat_to_target sum)

-- A difference that is negative gives the zero target, one that is zero cannot be inverted.
unfoldable pub subtract_difficulties : Target → Target → Option Target
unfolding inverse rat
subtract_difficulties x y = do
  x_inverse ← inverse x
  y_inverse ← inverse y
  let left = x_inverse.num * y_inverse.den
  let right = y_inverse.num * x_inverse.den
  difference ← rat_inv (record {
    num = if ltb left right then right - left else left - right;
    den = x_inverse.den * y_inverse.den;
  })
  some (if ltb left right then 0 else rat_to_target difference)

unfoldable pub mul_difficulty : Target → Rat → Option Target
unfolding inverse rat
mul_difficulty x y = do
  x_inverse ← inverse x
  product ← rat_inv (rat_mul y x_inverse)
  some (rat_to_target product)

unfoldable pub difficulty : Target → Currency
difficulty x = if x == 0 then root_depth else root_depth / x
