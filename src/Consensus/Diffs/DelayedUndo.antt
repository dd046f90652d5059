-- ===== src/Consensus/Diffs/DelayedUndo.antt =====
-- modules/consensus/consensusdb.go: adding and removing delayed siacoin outputs undo each other, and
-- so do creating and deleting the bucket of a height.
use sia_prime.Prelude.{
  ◌==◌, if◌then◌else◌, ==→eq, Bool-cases, Option-cases, ◌≡◌, refl, sym, ap, ◌∙◌, subst, inl, inr,
  Bool, true, false, ◌&&◌, Option, none, some, some-injective, arith,
}
use sia_prime.Types.Data.{Hash, BlockHeight, SiacoinOutput}
use sia_prime.Consensus.Bolt.{Bolt, IsLawful}
use sia_prime.Consensus.Data.{DelayedSiacoinOutputDiff}
use sia_prime.Consensus.Panic.{is_some, if-==, if-if-==, if-if}
use sia_prime.Consensus.Database.{
  bucket_or_empty, DelayedOutputs, add_dsco, remove_dsco, create_dsco_bucket, delete_dsco_bucket,
}
use sia_prime.Consensus.Diffs.{same_direction, commit_delayed_siacoin_output_diff}
use sia_prime.Consensus.Diffs.Delayed.{
  exists_at, delayed_at, SameDelayed, FitsDelayed, exists-put, delayed-put, exists-delete,
  delayed-delete, exists-create, delayed-create,
}

module _ (db : Bolt) (law : IsLawful db) where
  -- To put the bucket of a height back with one key changed changes one reading.
  put-reads :
      (k : BlockHeight) (id : Hash) (x : Option SiacoinOutput)
      (bucket bucket' : db.Bucket SiacoinOutput) (d : DelayedOutputs db)
      → db.get k d ≡ some bucket
      → ((i : Hash) → db.get i bucket' ≡ (if i == id then x else db.get i bucket))
      → ((h : BlockHeight) → exists_at db h (db.put k bucket' d) ≡ exists_at db h d)
        × ((h : BlockHeight) (i : Hash)
            → delayed_at db h i (db.put k bucket' d)
              ≡ (if (h == k) && (i == id) then x else delayed_at db h i d))
  unfolding bucket_or_empty
  put-reads k id x bucket bucket' d e change = (
    λ h.
        exists-put db law h k bucket' d
        ∙ if-== (λ h. exists_at db h d) true h k (sym (ap is_some e)),
    λ h i.
        let read : Option (db.Bucket SiacoinOutput) → Option SiacoinOutput =
          λ o. db.get i (bucket_or_empty db o) in
        delayed-put db law h k i bucket' d ∙ elim (Bool-cases (h == k)) [
          | inl q ↦
              let at_k : delayed_at db h i d ≡ db.get i bucket =
                ap (λ h. delayed_at db h i d) (==→eq h k q) ∙ ap read e in
              rw (q, at_k) (change i)
          | inr q ↦ rw q refl
        ],
  )

  -- Where the height has a bucket, adding does not panic and sets one output.
  add-adds :
      (k : BlockHeight) (id : Hash) (sco : SiacoinOutput) (d : DelayedOutputs db)
      → exists_at db k d ≡ true
      → (d' : DelayedOutputs db) × (add_dsco db k id sco d ≡ some d')
        × ((h : BlockHeight) → exists_at db h d' ≡ exists_at db h d)
        × ((h : BlockHeight) (i : Hash)
            → delayed_at db h i d'
              ≡ (if (h == k) && (i == id) then some sco else delayed_at db h i d))
  unfolding add_dsco
  add-adds k id sco d there = elim (Option-cases (db.get k d)) [
    | inl e ↦ absurd (let no = sym (ap is_some e) ∙ there in grind arith)
    | inr (bucket, e) ↦
        let (es, ds) =
          put-reads k id (some sco) bucket (db.put id sco bucket) d e
            (λ i. law.get-put i id sco bucket) in
        (db.put k (db.put id sco bucket) d, rw e refl, es, ds)
  ]

  remove-removes :
      (k : BlockHeight) (id : Hash) (d : DelayedOutputs db)
      → exists_at db k d ≡ true
      → (d' : DelayedOutputs db) × (remove_dsco db k id d ≡ some d')
        × ((h : BlockHeight) → exists_at db h d' ≡ exists_at db h d)
        × ((h : BlockHeight) (i : Hash)
            → delayed_at db h i d' ≡ (if (h == k) && (i == id) then none else delayed_at db h i d))
  unfolding remove_dsco
  remove-removes k id d there = elim (Option-cases (db.get k d)) [
    | inl e ↦ absurd (let no = sym (ap is_some e) ∙ there in grind arith)
    | inr (bucket, e) ↦
        let (es, ds) =
          put-reads k id none bucket (db.delete id bucket) d e (λ i. law.get-delete i id bucket) in
        (db.put k (db.delete id bucket) d, rw e refl, es, ds)
  ]

  undo-delayed :
      (dir : Bool) (k : BlockHeight) (id : Hash) (sco : SiacoinOutput) (b b' c : DelayedOutputs db)
      → exists_at db k b ≡ true
      → delayed_at db k id b ≡ (if dir then none else some sco)
      → (if same_direction dir true then add_dsco db k id sco b else remove_dsco db k id b)
        ≡ some b'
      → SameDelayed db c b'
      → (c' : DelayedOutputs db) × ((if same_direction dir false
            then add_dsco db k id sco c
            else remove_dsco db k id c)
          ≡ some c')
        × SameDelayed db c' b
  undo-delayed true k id sco b b' c there fresh run same =
      let (b1, run1, es, ds) = add-adds k id sco b there in
      let same1 : SameDelayed db c b1 =
        subst (SameDelayed db c) (some-injective _ _ (sym run ∙ run1)) same in
      let (c', run', es', ds') = remove-removes k id c (same1.same_heights k ∙ (es k ∙ there)) in
      (
        c',
        run',
        record {
          same_heights = λ h. es' h ∙ (same1.same_heights h ∙ es h);
          same_outputs = λ h i.
              ds' h i
              ∙ ap (λ x. if (h == k) && (i == id) then none else x)
                  (same1.same_outputs h i ∙ ds h i)
              ∙ if-if-== (λ h i. delayed_at db h i b) none (some sco) h k i id (sym fresh);
        },
      )
  undo-delayed false k id sco b b' c there here run same =
      let (b1, run1, es, ds) = remove-removes k id b there in
      let same1 : SameDelayed db c b1 =
        subst (SameDelayed db c) (some-injective _ _ (sym run ∙ run1)) same in
      let (c', run', es', ds') = add-adds k id sco c (same1.same_heights k ∙ (es k ∙ there)) in
      (
        c',
        run',
        record {
          same_heights = λ h. es' h ∙ (same1.same_heights h ∙ es h);
          same_outputs = λ h i.
              ds' h i
              ∙ ap (λ x. if (h == k) && (i == id) then some sco else x)
                  (same1.same_outputs h i ∙ ds h i)
              ∙ if-if-== (λ h i. delayed_at db h i b) (some sco) none h k i id (sym here);
        },
      )

  pub SameDelayed-undo :
      (dscod : DelayedSiacoinOutputDiff) (b b' c : DelayedOutputs db)
      → FitsDelayed db dscod b
      → commit_delayed_siacoin_output_diff db true dscod b ≡ some b'
      → SameDelayed db c b'
      → (c' : DelayedOutputs db) × (commit_delayed_siacoin_output_diff db false dscod c ≡ some c')
        × SameDelayed db c' b
  unfolding commit_delayed_siacoin_output_diff
  SameDelayed-undo dscod b b' c fit run same =
      undo-delayed dscod.direction dscod.maturity_height dscod.id dscod.siacoin_output b b' c
        (fit.0) (fit.1) run same

  -- A diff that fits does not panic.
  pub FitsDelayed-runs :
      (dscod : DelayedSiacoinOutputDiff) (b : DelayedOutputs db)
      → FitsDelayed db dscod b
      → (b' : DelayedOutputs db) × (commit_delayed_siacoin_output_diff db true dscod b ≡ some b')
  unfolding commit_delayed_siacoin_output_diff
  FitsDelayed-runs dscod b fit =
      let k = dscod.maturity_height in
      elim (Bool-cases dscod.direction) [
        | inl e ↦
            let (b', run, _, _) = add-adds k dscod.id dscod.siacoin_output b (fit.0) in
            (b', rw e run)
        | inr e ↦ let (b', run, _, _) = remove-removes k dscod.id b (fit.0) in (b', rw e run)
      ]

  -- A new bucket comes and goes without a trace.
  pub create-undone :
      (k : BlockHeight) (b c : DelayedOutputs db)
      → exists_at db k b ≡ false
      → SameDelayed db c (create_dsco_bucket db k b)
      → SameDelayed db (delete_dsco_bucket db k c) b
  unfolding bucket_or_empty
  create-undone k b c missing same = record {
    same_heights = λ h.
        exists-delete db law h k c
        ∙ ap (λ x. if h == k then false else x) (same.same_heights h ∙ exists-create db law h k b)
        ∙ if-if (λ h. exists_at db h b) false true h k (sym missing);
    same_outputs = λ h i.
        delayed-delete db law h k i c
        ∙ ap (λ x. if h == k then none else x)
            (same.same_outputs h i ∙ delayed-create db law h k i b)
        ∙ if-== (λ h. delayed_at db h i b) none h k (sym (nothing i));
  }
    where
      nothing : (i : Hash) → delayed_at db k i b ≡ none
      nothing i = elim (Option-cases (db.get k b)) [
        | inl e ↦ ap (λ o. db.get i (bucket_or_empty db o)) e ∙ law.get-empty i
        | inr (bucket, e) ↦ absurd (let no = sym (ap is_some e) ∙ missing in grind arith)
      ]

  -- An emptied bucket goes and comes back without a trace.
  pub delete-undone :
      (k : BlockHeight) (b c : DelayedOutputs db)
      → exists_at db k b ≡ true
      → ((i : Hash) → delayed_at db k i b ≡ none)
      → SameDelayed db c (delete_dsco_bucket db k b)
      → SameDelayed db (create_dsco_bucket db k c) b
  delete-undone k b c there emptied same = record {
    same_heights = λ h.
        exists-create db law h k c
        ∙ ap (λ x. if h == k then true else x) (same.same_heights h ∙ exists-delete db law h k b)
        ∙ if-if (λ h. exists_at db h b) true false h k (sym there);
    same_outputs = λ h i.
        delayed-create db law h k i c
        ∙ same.same_outputs h i
        ∙ delayed-delete db law h k i b
        ∙ if-== (λ h. delayed_at db h i b) none h k (sym (emptied i));
  }
