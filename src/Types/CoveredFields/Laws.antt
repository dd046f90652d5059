-- ===== src/Types/CoveredFields/Laws.antt =====
-- types/signatures.go: which covered fields are accepted.
use sia_prime.Prelude.{
  leb, ◌==◌, if◌then◌else◌, ==→eq, Bool-cases, length, All, ℕ, ◌<◌, ◌≡◌, refl, ◌↔◌, inl, inr, Bool,
  true, false, none, List, [], ◌∷◌, ◌++◌, arith,
}
use sia_prime.Types.Data.{TransactionSignature, Transaction}
use sia_prime.Types.Outcome.{each-All, then_iff}
use sia_prime.Types.CoveredFields.{
  climb, sorted_unique, field_maxs, signatures_max, all_empty, check_whole, check_field,
  valid_signature_fields, valid_covered_fields,
}

-- Each element is above the one before it.
abbrev pub Ascending : List ℕ → Type 0
Ascending [] = Unit
Ascending (x ∷ xs) = All (λ y. x < y) xs × Ascending xs

climb-Ascending :
    (biggest max : ℕ) (elems : List ℕ)
    → climb biggest elems max ≡ true
    → All (λ y. biggest < y) elems
      × (Ascending elems × (All (λ y. y < max) elems × (biggest < max)))
unfolding climb
climb-Ascending biggest max [] h = (tt, (tt, (tt, ground arith)))
climb-Ascending biggest max (e ∷ es) h = elim (Bool-cases (leb e biggest)) [
  | inl q ↦ absurd (ground arith)
  | inr q ↦
      let (above, (asc, (below, last))) = climb-Ascending e max es (ground arith) in
      let up : biggest < e = ground arith in
      ((up, All_lower biggest e es up above), ((above, asc), ((last, below), omega arith)))
]
  where
    All_lower : (b e : ℕ) (es : List ℕ) → b < e → All (λ y. e < y) es → All (λ y. b < y) es
    All_lower b e [] up a = tt
    All_lower b e (x ∷ es) up a = (let p = a.0 in omega arith, All_lower b e es up (a.1))

Ascending-climb :
    (biggest max : ℕ) (elems : List ℕ)
    → All (λ y. biggest < y) elems
    → Ascending elems
    → All (λ y. y < max) elems
    → biggest < max
    → climb biggest elems max ≡ true
unfolding climb
Ascending-climb biggest max [] a b c d = ground arith
Ascending-climb biggest max (e ∷ es) a b c d =
    let r = Ascending-climb e max es (b.0) (b.1) (c.1) (c.0) in let up = a.0 in ground arith

-- `sortedUnique` passes exactly when the elements ascend strictly and are all below the maximum.
pub sorted_unique_iff :
    (elems : List ℕ) (max : ℕ)
    → (sorted_unique elems max ≡ true) ↔ (Ascending elems × All (λ y. y < max) elems)
unfolding sorted_unique
sorted_unique_iff [] max = (λ h. (tt, tt), λ h. refl)
sorted_unique_iff (e ∷ es) max = (
  λ h.
      let (above, (asc, (below, last))) = climb-Ascending e max es h in
      ((above, asc), (last, below)),
  λ (a, b). Ascending-climb e max es (a.0) (a.1) (b.1) (b.0),
)

-- No field names an element.
abbrev pub AllEmpty : List (List ℕ × ℕ) → Type 0
AllEmpty fs = All (λ f. length (f.0) ≡ 0) fs

all_empty_iff : (fs : List (List ℕ × ℕ)) → (all_empty fs ≡ true) ↔ AllEmpty fs
unfolding all_empty
all_empty_iff [] = (λ h. tt, λ h. refl)
all_empty_iff (f ∷ fs) =
    let r = all_empty_iff fs in
    (
      λ h. elim (Bool-cases (length (f.0) == 0)) [
        | inl e ↦ (==→eq _ _ e, r.0 (ground arith))
        | inr e ↦ absurd (ground arith)
      ],
      λ (e, a). let p = r.1 a in ground arith,
    )

-- A signature of the whole transaction names nothing but signatures, any other names something, and
-- each field ascends within the transaction's elements.
unfoldable pub CoversFields : Transaction → TransactionSignature → Type 0
CoversFields t sig =
    let cf = sig.covered_fields in
    (if cf.whole_transaction
      then AllEmpty (field_maxs t cf)
      else ¬ AllEmpty (field_maxs t cf ++ (signatures_max t cf ∷ [])))
    × All (λ f. Ascending (f.0) × All (λ y. y < f.1) (f.0))
        (field_maxs t cf ++ (signatures_max t cf ∷ []))

check_whole_iff :
    (whole : Bool) (fs : List (List ℕ × ℕ)) (s : List ℕ × ℕ)
    → (check_whole whole fs s ≡ none) ↔ (if whole then AllEmpty fs else ¬ AllEmpty (fs ++ (s ∷ [])))
unfolding check_whole
check_whole_iff true fs s =
    let r = all_empty_iff fs in (λ h. r.0 (ground arith), λ a. let p = r.1 a in ground arith)
check_whole_iff false fs s =
    let r = all_empty_iff (fs ++ (s ∷ [])) in
    (
      λ h a. let p = r.1 a in absurd (ground arith),
      λ n. elim (Bool-cases (all_empty (fs ++ (s ∷ [])))) [
        | inl e ↦ absurd (n (r.0 e))
        | inr e ↦ ground arith
      ],
    )

check_field_iff :
    (f : List ℕ × ℕ) → (check_field f ≡ none) ↔ (Ascending (f.0) × All (λ y. y < f.1) (f.0))
unfolding check_field
check_field_iff (field, max) =
    let r = sorted_unique_iff field max in
    (λ h. r.0 (ground arith), λ a. let p = r.1 a in ground arith)

-- `validCoveredFields` accepts a transaction exactly when each signature covers fields as it may.
pub valid_covered_fields_iff :
    (t : Transaction)
    → (valid_covered_fields t ≡ none) ↔ All (CoversFields t) t.transaction_signatures
unfolding valid_covered_fields valid_signature_fields CoversFields
valid_covered_fields_iff t =
    each-All (CoversFields t) (valid_signature_fields t)
      (λ sig.
        then_iff
          (check_whole_iff sig.covered_fields.whole_transaction (field_maxs t sig.covered_fields)
            (signatures_max t sig.covered_fields))
          (each-All (λ f. Ascending (f.0) × All (λ y. y < f.1) (f.0)) check_field check_field_iff
            (field_maxs t sig.covered_fields ++ (signatures_max t sig.covered_fields ∷ []))))
      t.transaction_signatures
