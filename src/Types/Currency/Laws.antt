-- ===== src/Types/Currency/Laws.antt =====
-- What the tax takes, and that nothing of a payout is lost between the tax and the rest.
use native.Mathlib.Nat.{div-add-mod', mod-lt, mul-mod_left}
use sia_prime.Prelude.{◌+◌, ◌-◌, ◌*◌, ◌/◌, ◌%◌, ◌≤◌, ◌<◌, ◌≡◌, arith}
use sia_prime.Types.Data.{Currency, BlockHeight}
use sia_prime.Types.Currency.{round_down, tax, post_tax, siafund_count}

-- Rounding down gives a multiple of the divisor, at most the value and less than a divisor below.
pub round_down_lem :
    (x y : Currency) (h : 0 < y)
    → (round_down x y h % y ≡ 0) × (round_down x y h ≤ x) × (x < round_down x y h + y)
unfolding round_down
round_down_lem x y h =
    let e : x - x % y ≡ x / y * y = omega (arith, div-add-mod' x y) in
    (rw e (mul-mod_left (x / y) y), omega arith, omega (arith, mod-lt x h))

-- Before and after the hardfork the tax is a multiple of the siafund count and at most 3.9 percent
-- of the payout.
pub tax_bounds :
    (hardfork height : BlockHeight) (payout : Currency)
    → (tax hardfork height payout % siafund_count ≡ 0)
      × (1000 * tax hardfork height payout ≤ 39 * payout)
unfolding tax
tax_bounds hardfork height payout = ground arith

-- The tax and the remainder of a payout make up the payout.
pub post_tax-tax :
    (hardfork height : BlockHeight) (payout : Currency)
    → post_tax hardfork height payout + tax hardfork height payout ≡ payout
unfolding post_tax
post_tax-tax hardfork height payout = ground arith
