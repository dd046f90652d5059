-- ===== src/Consensus/Diffs/Buckets.antt =====
-- modules/consensus/diffs.go: what a loop of diffs did is undone by the loop that runs backwards.
use sia_prime.Consensus.Diffs.{same_direction}
use sia_prime.Prelude.{
  ◌==◌, if◌then◌else◌, ==→eq, Bool-cases, ℕ, ◌≡◌, refl, sym, ap, ◌∙◌, subst, inl, inr, Bool, true,
  false, Option, none, some, some-injective, List, [], ◌∷◌,
}
use sia_prime.Consensus.Bolt.{Bolt, IsLawful, SameBucket}
use sia_prime.Consensus.Panic.{loop, loop_down, try_loop, try_loop_down, bind-some}

module _ (db : Bolt) (law : IsLawful db) {V : Type 0} where
  pub undo-put :
      (k : ℕ) (v : V) (b c : db.Bucket V)
      → db.get k b ≡ none
      → SameBucket db c (db.put k v b)
      → SameBucket db (db.delete k c) b
  undo-put k v b c fresh same j = elim (Bool-cases (j == k)) [
    | inl e ↦
        let j≡k = ==→eq j k e in
        law.get-delete j k c ∙ (rw e (sym (ap (λ i. db.get i b) j≡k ∙ fresh)))
    | inr e ↦
        let put-other : db.get j (db.put k v b) ≡ db.get j b = law.get-put j k v b ∙ rw e refl in
        law.get-delete j k c ∙ (rw e (same j ∙ put-other))
  ]

  pub undo-delete :
      (k : ℕ) (v : V) (b c : db.Bucket V)
      → db.get k b ≡ some v
      → SameBucket db c (db.delete k b)
      → SameBucket db (db.put k v c) b
  undo-delete k v b c here same j = elim (Bool-cases (j == k)) [
    | inl e ↦
        let j≡k = ==→eq j k e in
        law.get-put j k v c ∙ (rw e (sym (ap (λ i. db.get i b) j≡k ∙ here)))
    | inr e ↦
        let delete-other : db.get j (db.delete k b) ≡ db.get j b =
          law.get-delete j k b ∙ rw e refl in
        law.get-put j k v c ∙ (rw e (same j ∙ delete-other))
  ]

  -- A diff with the direction `dir`, applied and reverted.
  pub undo-entry :
      (dir : Bool) (k : ℕ) (v : V) (b c : db.Bucket V)
      → db.get k b ≡ (if dir then none else some v)
      → SameBucket db c (if same_direction dir true then db.put k v b else db.delete k b)
      → SameBucket db (if same_direction dir false then db.put k v c else db.delete k c) b
  undo-entry true k v b c = undo-put k v b c
  undo-entry false k v b c = undo-delete k v b c

-- Each diff fits the state that the diffs before it leave.
module _ {D S : Type 0} (commit : Bool → D → S → S) (Fits : D → S → Type 0) where
  abbrev pub FitAll : List D → S → Type 0
  FitAll [] s = Unit
  FitAll (d ∷ ds) s = Fits d s × FitAll ds (commit true d s)

module _ {D S : Type 0} (commit : Bool → D → S → Option S) (Fits : D → S → Type 0) where
  abbrev pub TryFitAll : List D → S → Type 0
  TryFitAll [] s = Unit
  TryFitAll (d ∷ ds) s = Fits d s × ((s' : S) → commit true d s ≡ some s' → TryFitAll ds s')

-- `Same` is when two states have the same content, `undo` is what reverting one diff does.
module _ {D S : Type 0} (commit : Bool → D → S → S) (Fits : D → S → Type 0) (Same : S → S → Type 0)
    (undo : (d : D) (b c : S)
      → Fits d b
      → Same c (commit true d b)
      → Same (commit false d c) b) where
  pub undo_all :
      (ds : List D) (b c : S)
      → FitAll commit Fits ds b
      → Same c (loop (commit true) ds b)
      → Same (loop_down (commit false) ds c) b
  undo_all [] b c fit same = same
  undo_all (d ∷ ds) b c fit same =
      undo d b (loop_down (commit false) ds c) (fit.0)
        (undo_all ds (commit true d b) c (fit.1) same)

module _ {D S : Type 0} (commit : Bool → D → S → Option S) (Fits : D → S → Type 0)
    (Same : S → S → Type 0)
    (undo : (d : D) (b b' c : S)
      → Fits d b
      → commit true d b ≡ some b'
      → Same c b'
      → (c' : S) × (commit false d c ≡ some c') × Same c' b) where
  pub try_undo_all :
      (ds : List D) (b b' c : S)
      → TryFitAll commit Fits ds b
      → try_loop (commit true) ds b ≡ some b'
      → Same c b'
      → (c' : S) × (try_loop_down (commit false) ds c ≡ some c') × Same c' b
  try_undo_all [] b b' c fit run same =
      (c, refl, subst (Same c) (sym (some-injective _ _ run)) same)
  try_undo_all (d ∷ ds) b b' c fit run same =
      let (b1, e, run') = bind-some (commit true d b) _ b' run in
      let (c1, p, q) = try_undo_all ds b1 b' c (fit.1 b1 e) run' same in
      let (c2, p2, q2) = undo d b b1 c1 (fit.0) e q in (c2, rw p p2, q2)

-- Diffs that fit are applied without a panic.
module _ {D S : Type 0} (commit : Bool → D → S → Option S) (Fits : D → S → Type 0)
    (runs : (d : D) (b : S) → Fits d b → (b' : S) × (commit true d b ≡ some b')) where
  pub run_all :
      (ds : List D) (b : S)
      → TryFitAll commit Fits ds b
      → (b' : S) × (try_loop (commit true) ds b ≡ some b')
  run_all [] b fit = (b, refl)
  run_all (d ∷ ds) b fit =
      let (b1, e) = runs d b (fit.0) in let (b2, e2) = run_all ds b1 (fit.1 b1 e) in (b2, rw e e2)
