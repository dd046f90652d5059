-- ===== src/Types/Target/Laws.antt =====
-- types/target.go: sums and multiples of difficulties, as one division.
use sia_prime.Prelude.{
  ◌==◌, Bool-cases, ℕ, ◌+◌, ◌*◌, ◌/◌, ◌^◌, ◌≤◌, ◌<◌, ◌≡◌, refl, sym, ap, ◌∙◌, inl, inr, false, some,
  some-injective, arith,
}
use sia_prime.Prelude.Fallible.{bind-some}
use sia_prime.Types.Target.{
  Target, Rat, int_to_target, rat, rat_to_target, inverse, add_difficulties, mul_difficulty,
}
use native.Mathlib.Nat.{div-le_of_le-mul, mul_comm, mul-one}

-- No target is zero when it can be inverted.
pub inverse-pos : (x : Target) → 0 < x → inverse x ≡ some (record { num = 1; den = x })
unfolding inverse rat
inverse-pos x h = let e : (x == 0) ≡ false = ground arith in rw e refl

pub inverse-some : (x : Target) {r : Rat} → inverse x ≡ some r → 0 < x
unfolding inverse rat
inverse-some x h = ground arith

-- The sum of two difficulties has, rounded down, the target x * y / (x + y).
pub add_difficulties_lem :
    (x y : Target) → 0 < x → 0 < y → add_difficulties x y ≡ some (int_to_target (x * y / (x + y)))
unfolding add_difficulties rat_to_target
add_difficulties_lem x y hx hy =
    let pos : (1 * y + 1 * x == 0) ≡ false = ground arith in
    let e : 1 * y + 1 * x ≡ x + y = omega arith in
    rw (inverse-pos x hx, inverse-pos y hy, pos) (ap (λ t. some (int_to_target (x * y / t))) e)

pub add_difficulties-some :
    (x y : Target) {z : Target}
    → add_difficulties x y ≡ some z
    → (0 < x) × (0 < y) × (z ≡ int_to_target (x * y / (x + y)))
unfolding add_difficulties
add_difficulties-some x y h =
    let (r, e, h1) = bind-some (inverse x) _ _ h in
    let (s, f, _) = bind-some (inverse y) _ _ h1 in
    let hx = inverse-some x e in
    let hy = inverse-some y f in
    (hx, hy, some-injective _ _ (sym h ∙ add_difficulties_lem x y hx hy))

-- The target of x's difficulty times num / den is x * den / num, rounded down.
pub mul_difficulty_lem :
    (x n d : ℕ)
    → 0 < x
    → 0 < n
    → mul_difficulty x (record { num = n; den = d }) ≡ some (int_to_target (d * x / n))
unfolding mul_difficulty rat_to_target
mul_difficulty_lem x n d hx hn =
    let pos : (n * 1 == 0) ≡ false = ground arith in
    rw (inverse-pos x hx, pos) (ap (λ t. some (int_to_target (d * x / t))) (mul-one n))

pub int_to_target-le : (i : ℕ) → int_to_target i ≤ i
unfolding int_to_target
int_to_target-le i = ground arith

pub int_to_target-lt : (i : ℕ) → int_to_target i < 2 ^ 256
unfolding int_to_target
int_to_target-lt i = ground arith

-- A sum of two difficulties is at least each of them: its target is at most theirs; and it is
-- computed for any two targets that are not zero.
pub add_difficulties-le :
    (x y : Target)
    → 0 < x
    → 0 < y
    → (z : Target) × (add_difficulties x y ≡ some z) × (z ≤ x) × (z ≤ y)
add_difficulties-le x y hx hy =
    let q = x * y / (x + y) in
    let qx : q ≤ x = div-le_of_le-mul (x + y) (grind arith) in
    let qy : q ≤ y = div-le_of_le-mul (x + y) (grind arith) in
    let le = int_to_target-le q in
    (int_to_target q, add_difficulties_lem x y hx hy, omega arith, omega arith)

pub add_difficulties_comm : (x y : Target) → add_difficulties x y ≡ add_difficulties y x
unfolding add_difficulties inverse rat
add_difficulties_comm x y = elim (Bool-cases (x == 0)) [
  | inl p ↦ ground arith
  | inr p ↦ elim (Bool-cases (y == 0)) [
    | inl q ↦ ground arith
    | inr q ↦
        let hx : 0 < x = ground arith in
        let hy : 0 < y = ground arith in
        add_difficulties_lem x y hx hy
        ∙ (ap (λ t. some (int_to_target (t / (x + y)))) (mul_comm x y)
            ∙ (ap (λ t. some (int_to_target (y * x / t))) (omega arith)
                ∙ sym (add_difficulties_lem y x hy hx)))
  ]
]
