-- ===== src/Types/Outcome.antt =====
-- The errors of types/validtransaction.go and types/signatures.go, and the pattern of their
-- functions: run a check, and return its error when there is one.
use sia_prime.Prelude.{Option, none, some, List, [], ◌∷◌, All, ◌≡◌, refl, ◌↔◌, arith}

pub data TxnError : Type 0 where
  double_spend file_contract_output_sum_violation file_contract_window_end_violation : TxnError
  file_contract_window_start_violation non_zero_claim_start non_zero_revision : TxnError
  storage_proof_with_outputs timelock_not_satisfied transaction_too_large : TxnError
  zero_miner_fee zero_output zero_revision : TxnError
  entropy_key frivolous_signature invalid_pub_key_index missing_signatures : TxnError
  premature_signature public_key_overuse sorted_unique_violation : TxnError
  unlock_hash_wrong_algorithm whole_transaction_violation invalid_signature : TxnError

-- `none` is a nil error.
abbrev pub Outcome : Type 0
Outcome = Option TxnError

infixr 5 ◌>>◌
-- if err != nil { return err }
abbrev pub ◌>>◌ : {E : Type 0} → Option E → Option E → Option E
none >> o = o
some e >> o = some e

-- A loop that returns the first error.
abbrev pub each {ℓ} : {E : Type 0} {A : Type ℓ} → (A → Option E) → List A → Option E
each f [] = none
each f (x ∷ xs) = f x >> each f xs

pub then-none : {E : Type 0} (a b : Option E) → a >> b ≡ none → (a ≡ none) × (b ≡ none)
then-none none b h = (refl, h)
then-none (some e) b h = absurd (grind arith)

pub none-then : {E : Type 0} (a b : Option E) → a ≡ none → b ≡ none → a >> b ≡ none
none-then none b h h' = h'
none-then (some e) b h h' = h

module _ {ℓ} {E : Type 0} {A : Type ℓ} where
  pub each-none : (f : A → Option E) (xs : List A) → each f xs ≡ none → All (λ x. f x ≡ none) xs
  each-none f [] h = tt
  each-none f (x ∷ xs) h = let p = then-none (f x) (each f xs) h in (p.0, each-none f xs (p.1))

  pub none-each : (f : A → Option E) (xs : List A) → All (λ x. f x ≡ none) xs → each f xs ≡ none
  none-each f [] h = refl
  none-each f (x ∷ xs) h = none-then (f x) (each f xs) (h.0) (none-each f xs (h.1))

  -- A loop of checks passes where every check passes.
  pub each-All {κ} :
      (P : A → Type κ) (f : A → Option E)
      → ((x : A) → (f x ≡ none) ↔ P x)
      → (xs : List A) → (each f xs ≡ none) ↔ All P xs
  each-All P f h [] = (λ _. tt, λ _. refl)
  each-All P f h (x ∷ xs) = (
    λ e. let p = then-none (f x) (each f xs) e in ((h x).0 (p.0), (each-All P f h xs).0 (p.1)),
    λ a. none-then (f x) (each f xs) ((h x).1 (a.0)) ((each-All P f h xs).1 (a.1)),
  )

-- Checks in sequence pass where each passes.
pub then_iff {κ μ} :
    {E : Type 0} {P : Type κ} {Q : Type μ} {a b : Option E}
    → (a ≡ none) ↔ P
    → (b ≡ none) ↔ Q
    → (a >> b ≡ none) ↔ (P × Q)
then_iff {a} {b} f g = (
  λ h. let p = then-none a b h in (f.0 (p.0), g.0 (p.1)),
  λ pq. none-then a b (f.1 (pq.0)) (g.1 (pq.1)),
)
