-- ===== src/Prelude/Bytes.antt =====
-- Fixed-width numbers as byte lists, least and most significant byte first.
use Prim.Native.Nat.{ℕ, zero, suc, ◌+◌, ◌*◌, ◌/◌, ◌%◌, ◌^◌, ◌<◌}
use mathlib.Core.Path.{◌≡◌, refl, ap}
use mathlib.Core.List.{List, [], ◌∷◌}
use native.Mathlib.Omega.{arith}
use native.Mathlib.Nat.{pow-suc, pow-zero, mod-eq_of_lt, div-add-mod, div-div-eq-div-mul}
use sia_prime.Prelude.Lists.{length}

-- The `k` low bytes of `n`, least significant first.
unfoldable pub le_bytes : ℕ → ℕ → List ℕ
le_bytes zero n = []
le_bytes (suc k) n = (n % 256) ∷ le_bytes k (n / 256)

unfoldable pub of_le : List ℕ → ℕ
of_le [] = 0
of_le (b ∷ bs) = b + 256 * of_le bs

-- The `k` low bytes of `n`, most significant first.
unfoldable pub be_bytes : ℕ → ℕ → List ℕ
be_bytes zero n = []
be_bytes (suc k) n = (n / 256 ^ k % 256) ∷ be_bytes k n

abbrev pub push_byte : ℕ → ℕ → ℕ
push_byte acc b = acc * 256 + b

unfoldable pub of_be_from : ℕ → List ℕ → ℕ
of_be_from acc [] = acc
of_be_from acc (b ∷ bs) = of_be_from (push_byte acc b) bs

unfoldable pub of_be : List ℕ → ℕ
unfolding of_be_from
of_be = of_be_from 0

pub length-le_bytes : (k n : ℕ) → length (le_bytes k n) ≡ k
unfolding le_bytes
length-le_bytes zero n = refl
length-le_bytes (suc k) n = ap suc (length-le_bytes k (n / 256))

pub length-be_bytes : (k n : ℕ) → length (be_bytes k n) ≡ k
unfolding be_bytes
length-be_bytes zero n = refl
length-be_bytes (suc k) n = ap suc (length-be_bytes k n)

pub of_le-le_bytes : (k n : ℕ) → n < 256 ^ k → of_le (le_bytes k n) ≡ n
unfolding le_bytes of_le
of_le-le_bytes zero n h = omega (arith, pow-zero 256)
of_le-le_bytes (suc k) n h = omega (arith, pow-suc 256 k, of_le-le_bytes k (n / 256))

two_digits :
    (c p q r m d s : ℕ) → p * q + r ≡ c → 256 * m + d ≡ q → p * 256 * m + s ≡ c → s ≡ d * p + r
two_digits c p q r m d s h k l = omega (arith, ap (λ (t : ℕ). p * t) k)

-- The remainder by `p * 256` in two digits.
mod-mul_digit : (c p : ℕ) → c % (p * 256) ≡ c / p % 256 * p + c % p
mod-mul_digit c p =
    two_digits c p (c / p) (c % p) (c / p / 256) (c / p % 256) (c % (p * 256)) (div-add-mod c p)
      (div-add-mod (c / p) 256) (rw (div-div-eq-div-mul c p 256) (div-add-mod c (p * 256)))

be_step :
    (acc d p s t x y : ℕ)
    → x ≡ push_byte acc d * p + t
    → y ≡ p * 256
    → s ≡ d * p + t
    → x ≡ acc * y + s
be_step acc d p s t x y h k l = omega (arith, ap (λ (u : ℕ). acc * u) k)

pub of_be_from-be_bytes :
    (k acc n : ℕ) → of_be_from acc (be_bytes k n) ≡ acc * 256 ^ k + n % 256 ^ k
unfolding be_bytes of_be_from
of_be_from-be_bytes zero acc n = omega (arith, pow-zero 256)
of_be_from-be_bytes (suc k) acc n =
    be_step acc (n / 256 ^ k % 256) (256 ^ k) (n % 256 ^ suc k) (n % 256 ^ k) _ (256 ^ suc k)
      (of_be_from-be_bytes k (push_byte acc (n / 256 ^ k % 256)) n) (pow-suc 256 k)
      (rw (pow-suc 256 k) (mod-mul_digit n (256 ^ k)))

pub of_be-be_bytes : (k n : ℕ) → n < 256 ^ k → of_be (be_bytes k n) ≡ n
unfolding of_be
of_be-be_bytes k n h = omega (arith, of_be_from-be_bytes k 0 n, mod-eq_of_lt h)
