-- ===== src/Consensus/Validity/Sums.antt =====
-- Sums that may fail, in the checks of modules/consensus/validtransaction.go.
use sia_prime.Prelude.{◌≡◌, refl, ◌⊎◌, inl, inr, arith}

pub inl-inr : {A B C : Type 0} (a : A) (b : B) → Path (A ⊎ B) (inl a) (inr b) → C
inl-inr a b h = absurd (grind arith)

-- A result is an error or a value.
pub Sum-cases : {A B : Type 0} (x : A ⊎ B) → ((a : A) × (x ≡ inl a)) ⊎ ((b : B) × (x ≡ inr b))
Sum-cases (inl a) = inl (a, refl)
Sum-cases (inr b) = inr (b, refl)
