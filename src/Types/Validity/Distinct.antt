-- ===== src/Types/Validity/Distinct.antt =====
-- The sets of ids in types/validtransaction.go (`noRepeats`): a loop that enters ids into a set
-- passes exactly when no id comes twice.
use sia_prime.Prelude.{
  ◌==◌, if◌then◌else◌, ==→ne, Bool-cases, All, ◌≡◌, refl, sym, ap, ◌∙◌, subst, ◌≢◌, ◌↔◌, inl, inr,
  true, false, none, List, [], ◌∷◌, ◌++◌, arith,
}
use sia_prime.Types.Data.{Hash}
use sia_prime.Types.Validity.{exists_in, enter_ids, fail_on_repeat, enter_more}

abbrev pub Fresh : Hash → List Hash → Type 0
Fresh id xs = All (λ x. id ≢ x) xs

-- No id stands twice in the list.
abbrev pub Distinct : List Hash → Type 0
Distinct [] = Unit
Distinct (x ∷ xs) = Fresh x xs × Distinct xs

exists_in-Fresh : (id : Hash) (xs : List Hash) → exists_in id xs ≡ false → Fresh id xs
exists_in-Fresh id [] h = tt
exists_in-Fresh id (x ∷ xs) h = elim (Bool-cases (id == x)) [
  | inl e ↦ absurd (grind arith)
  | inr e ↦ (
    ==→ne id x e,
    exists_in-Fresh id xs (sym (ap (λ b. if b then true else exists_in id xs) e) ∙ h),
  )
]

Fresh-exists_in : (id : Hash) (xs : List Hash) → Fresh id xs → exists_in id xs ≡ false
Fresh-exists_in id [] h = refl
Fresh-exists_in id (x ∷ xs) h =
    let p : exists_in id xs ≡ false = Fresh-exists_in id xs (h.1) in
    let q : id ≢ x = h.0 in ground arith

-- What the loop has entered so far, and what is to come, are apart.
abbrev Apart : List Hash → List Hash → Type 0
Apart seen ids = All (λ id. Fresh id seen) ids

Apart-head : (i : Hash) (seen ids : List Hash) → Apart (i ∷ seen) ids → Fresh i ids × Apart seen ids
Apart-head i seen [] h = (tt, tt)
Apart-head i seen (j ∷ ids) h =
    let r = Apart-head i seen ids (h.1) in ((λ e. h.0.0 (sym e), r.0), (h.0.1, r.1))

head-Apart : (i : Hash) (seen ids : List Hash) → Fresh i ids → Apart seen ids → Apart (i ∷ seen) ids
head-Apart i seen [] h k = tt
head-Apart i seen (j ∷ ids) h k = ((λ e. h.0 (sym e), k.0), head-Apart i seen ids (h.1) (k.1))

passes-Distinct :
    (seen ids : List Hash)
    → fail_on_repeat (enter_ids seen ids) ≡ none
    → Distinct ids × Apart seen ids
unfolding enter_ids fail_on_repeat
passes-Distinct seen [] h = (tt, tt)
passes-Distinct seen (id ∷ ids) h = elim (Bool-cases (exists_in id seen)) [
  | inl e ↦ absurd (grind arith)
  | inr e ↦
      let r =
        passes-Distinct (id ∷ seen) ids (
          subst (λ b. fail_on_repeat (if b then none else enter_ids (id ∷ seen) ids) ≡ none) e h) in
      let a = Apart-head id seen ids (r.1) in ((a.0, r.0), (exists_in-Fresh id seen e, a.1))
]

Distinct-passes :
    (seen ids : List Hash)
    → Distinct ids
    → Apart seen ids
    → fail_on_repeat (enter_ids seen ids) ≡ none
unfolding enter_ids fail_on_repeat
Distinct-passes seen [] d a = refl
Distinct-passes seen (id ∷ ids) d a =
    rw (Fresh-exists_in id seen (a.0))
      (Distinct-passes (id ∷ seen) ids (d.1) (head-Apart id seen ids (d.0) (a.1)))

Apart-nil : (ids : List Hash) → Apart [] ids
Apart-nil [] = tt
Apart-nil (i ∷ ids) = (tt, Apart-nil ids)

-- The loop that enters ids into an empty set passes exactly when no id stands twice in the list.
pub enter_ids_iff : (ids : List Hash) → (fail_on_repeat (enter_ids [] ids) ≡ none) ↔ Distinct ids
enter_ids_iff ids =
    (λ h. (passes-Distinct [] ids h).0, λ d. Distinct-passes [] ids d (Apart-nil ids))

-- Two loops with one set are a loop over both lists.
pub enter_more-append :
    (seen xs ys : List Hash) → enter_more (enter_ids seen xs) ys ≡ enter_ids seen (xs ++ ys)
unfolding enter_more enter_ids
enter_more-append seen [] ys = refl
enter_more-append seen (x ∷ xs) ys = elim (Bool-cases (exists_in x seen)) [
  | inl e ↦ rw e refl
  | inr e ↦ rw e (enter_more-append (x ∷ seen) xs ys)
]

pub Distinct-left : (xs ys : List Hash) → Distinct (xs ++ ys) → Distinct xs
Distinct-left [] ys d = tt
Distinct-left (x ∷ xs) ys d = (Fresh-left x xs ys (d.0), Distinct-left xs ys (d.1))
  where
    Fresh-left : (x : Hash) (xs ys : List Hash) → Fresh x (xs ++ ys) → Fresh x xs
    Fresh-left x [] ys h = tt
    Fresh-left x (z ∷ xs) ys h = (h.0, Fresh-left x xs ys (h.1))
