-- ===== src/Consensus/Diffs/Delayed.antt =====
-- modules/consensus/consensusdb.go: what the operations on delayed siacoin outputs do to the buckets
-- of the heights.
use sia_prime.Prelude.{
  ◌==◌, if◌then◌else◌, Option-cases, ◌≡◌, refl, sym, ap, ◌∙◌, inl, inr, Bool, true, false, Option,
  none, some,
}
use sia_prime.Types.Data.{Hash, BlockHeight, SiacoinOutput}
use sia_prime.Consensus.Bolt.{Bolt, IsLawful}
use sia_prime.Consensus.Data.{DelayedSiacoinOutputDiff}
use sia_prime.Consensus.Panic.{is_some, if-ap, if-==}
use sia_prime.Consensus.Database.{
  bucket_or_empty, DelayedOutputs, create_dsco_bucket, delete_dsco_bucket,
}

module _ (db : Bolt) where
  -- Is there a bucket for the height?
  abbrev pub exists_at : BlockHeight → DelayedOutputs db → Bool
  exists_at h d = is_some (db.get h d)

  abbrev pub delayed_at : BlockHeight → Hash → DelayedOutputs db → Option SiacoinOutput
  delayed_at h id d = db.get id (bucket_or_empty db (db.get h d))

  pub record SameDelayed (d d' : DelayedOutputs db) : Type 0 where
    pub same_heights : (h : BlockHeight) → exists_at h d ≡ exists_at h d'
    pub same_outputs : (h : BlockHeight) (id : Hash) → delayed_at h id d ≡ delayed_at h id d'

  -- The height has a bucket; what a diff adds is new there, what it removes is there as recorded.
  abbrev pub FitsDelayed : DelayedSiacoinOutputDiff → DelayedOutputs db → Type 0
  FitsDelayed dscod d =
      (exists_at dscod.maturity_height d ≡ true)
      × (delayed_at dscod.maturity_height dscod.id d
          ≡ (if dscod.direction then none else some dscod.siacoin_output))

module _ (db : Bolt) (law : IsLawful db) where
  pub exists-put :
      (h k : BlockHeight) (b : db.Bucket SiacoinOutput) (d : DelayedOutputs db)
      → exists_at db h (db.put k b d) ≡ (if h == k then true else exists_at db h d)
  exists-put h k b d =
      ap is_some (law.get-put h k b d) ∙ if-ap is_some (h == k) (some b) (db.get h d)

  pub delayed-put :
      (h k : BlockHeight) (i : Hash) (b : db.Bucket SiacoinOutput) (d : DelayedOutputs db)
      → delayed_at db h i (db.put k b d) ≡ (if h == k then db.get i b else delayed_at db h i d)
  unfolding bucket_or_empty
  delayed-put h k i b d =
      let read : Option (db.Bucket SiacoinOutput) → Option SiacoinOutput =
        λ o. db.get i (bucket_or_empty db o) in
      ap read (law.get-put h k b d) ∙ if-ap read (h == k) (some b) (db.get h d)

  pub exists-delete :
      (h k : BlockHeight) (d : DelayedOutputs db)
      → exists_at db h (delete_dsco_bucket db k d) ≡ (if h == k then false else exists_at db h d)
  unfolding delete_dsco_bucket
  exists-delete h k d = ap is_some (law.get-delete h k d) ∙ if-ap is_some (h == k) none (db.get h d)

  pub delayed-delete :
      (h k : BlockHeight) (i : Hash) (d : DelayedOutputs db)
      → delayed_at db h i (delete_dsco_bucket db k d)
        ≡ (if h == k then none else delayed_at db h i d)
  unfolding delete_dsco_bucket bucket_or_empty
  delayed-delete h k i d =
      let read : Option (db.Bucket SiacoinOutput) → Option SiacoinOutput =
        λ o. db.get i (bucket_or_empty db o) in
      ap read (law.get-delete h k d)
      ∙ (if-ap read (h == k) none (db.get h d)
          ∙ ap (λ x. if h == k then x else delayed_at db h i d) (law.get-empty i))

  pub exists-create :
      (h k : BlockHeight) (d : DelayedOutputs db)
      → exists_at db h (create_dsco_bucket db k d) ≡ (if h == k then true else exists_at db h d)
  unfolding create_dsco_bucket
  exists-create h k d = elim (Option-cases (db.get k d)) [
    | inl e ↦ rw (create_dsco_bucket, e) (exists-put h k db.empty d)
    | inr (b, e) ↦
        rw (create_dsco_bucket, e)
          (sym (if-== (λ x. exists_at db x d) true h k (sym (ap is_some e))))
  ]

  pub delayed-create :
      (h k : BlockHeight) (i : Hash) (d : DelayedOutputs db)
      → delayed_at db h i (create_dsco_bucket db k d) ≡ delayed_at db h i d
  unfolding create_dsco_bucket bucket_or_empty
  delayed-create h k i d =
      let read : Option (db.Bucket SiacoinOutput) → Option SiacoinOutput =
        λ o. db.get i (bucket_or_empty db o) in
      elim (Option-cases (db.get k d)) [
        | inl e ↦
            rw (create_dsco_bucket, e)
              (delayed-put h k i db.empty d
                ∙ if-== (λ x. delayed_at db x i d) (db.get i db.empty) h k (sym (ap read e)))
        | inr (b, e) ↦ rw (create_dsco_bucket, e) refl
      ]
