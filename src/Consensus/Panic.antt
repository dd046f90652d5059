-- ===== src/Consensus/Panic.antt =====
-- Code that panics in a release build, by a nil bucket or a nil item, and the loops of the
-- consensus set. A panic is `none`.
use sia_prime.Prelude.{
  ◌==◌, if◌then◌else◌, ==→eq, eq→==, Bool-cases, ℕ, suc, ◌≡◌, refl, sym, ap, ◌∙◌, inl, inr, Bool,
  true, false, ◌&&◌, Option, some, List, [], ◌∷◌,
}
pub use sia_prime.Prelude.Fallible.{◌>>=◌, pure, bind-some, is_some, none-some}

module _ {A S : Type 0} where
  -- for _, x := range xs
  abbrev pub loop : (A → S → S) → List A → S → S
  loop f [] s = s
  loop f (x ∷ xs) s = loop f xs (f x s)

  -- for i := len(xs) - 1; i >= 0; i--
  abbrev pub loop_down : (A → S → S) → List A → S → S
  loop_down f [] s = s
  loop_down f (x ∷ xs) s = f x (loop_down f xs s)

  -- The same loops with a body that can panic.
  abbrev pub try_loop : (A → S → Option S) → List A → S → Option S
  try_loop f [] s = some s
  try_loop f (x ∷ xs) s = f x s >>= λ s'. try_loop f xs s'

  abbrev pub try_loop_down : (A → S → Option S) → List A → S → Option S
  try_loop_down f [] s = some s
  try_loop_down f (x ∷ xs) s = try_loop_down f xs s >>= λ s'. f x s'

  -- for i, x := range xs, from an index on
  abbrev pub try_loop_from : ℕ → (ℕ → A → S → Option S) → List A → S → Option S
  try_loop_from i f [] s = some s
  try_loop_from i f (x ∷ xs) s = f i x s >>= λ s'. try_loop_from (suc i) f xs s'

-- A function of a conditional is the conditional of its values.
pub if-ap {ℓ κ} :
    {A : Type ℓ} {B : Type κ} (f : A → B) (b : Bool) (x y : A)
    → f (if b then x else y) ≡ (if b then f x else f y)
if-ap f true x y = refl
if-ap f false x y = refl

-- Under a test that two numbers are equal, one may stand for the other.
pub if-== {ℓ} :
    {A : Type ℓ} (f : ℕ → A) (x : A) (i j : ℕ) → x ≡ f j → (if i == j then x else f i) ≡ f i
if-== f x i j e = elim (Bool-cases (i == j)) [
  | inl q ↦ rw q (e ∙ sym (ap f (==→eq i j q)))
  | inr q ↦ rw q refl
]

pub ==-refl : (i : ℕ) → (i == i) ≡ true
==-refl i = eq→== i i refl

-- What is set at one pair of numbers and set back to what was there leaves all as it was.
pub if-if-== {ℓ} :
    {A : Type ℓ} (f : ℕ → ℕ → A) (x y : A) (h e i j : ℕ)
    → x ≡ f e j
    → (if (h == e) && (i == j) then x else (if (h == e) && (i == j) then y else f h i)) ≡ f h i
if-if-== f x y h e i j back = elim (Bool-cases (h == e)) [
  | inl p ↦ elim (Bool-cases (i == j)) [
    | inl q ↦
        rw (p, q) (back ∙ (ap (λ k. f k j) (sym (==→eq h e p)) ∙ ap (f h) (sym (==→eq i j q))))
    | inr q ↦ rw (p, q) refl
  ]
  | inr p ↦ rw p refl
]

pub if-if {ℓ} :
    {A : Type ℓ} (f : ℕ → A) (x y : A) (i j : ℕ)
    → x ≡ f j
    → (if i == j then x else (if i == j then y else f i)) ≡ f i
if-if f x y i j back = elim (Bool-cases (i == j)) [
  | inl p ↦ rw p (back ∙ sym (ap f (==→eq i j p)))
  | inr p ↦ rw p refl
]
