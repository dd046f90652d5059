-- ===== src/Consensus/Diffs/Expiring.antt =====
-- modules/consensus/consensusdb.go: what adding and removing a file contract does to the contracts
-- and to the lists of those that expire, and that one undoes the other.
use sia_prime.Prelude.{
  ◌==◌, if◌then◌else◌, ==→eq, Bool-cases, Option-cases, ℕ, ◌≡◌, refl, sym, ap, ◌∙◌, subst, inl, inr,
  Bool, true, false, ◌&&◌, Option, none, some, some-injective,
}
use sia_prime.Types.Data.{Hash, BlockHeight, FileContract}
use sia_prime.Consensus.Bolt.{Bolt, IsLawful, SameBucket}
use sia_prime.Consensus.Data.{FileContractDiff, Contracts}
use sia_prime.Consensus.Panic.{if-ap, none-some, ==-refl, if-if-==}
use sia_prime.Consensus.Database.{bucket_or_empty, add_file_contract, remove_file_contract}
use sia_prime.Consensus.Diffs.{same_direction, commit_file_contract_diff}
use sia_prime.Consensus.Diffs.Buckets.{undo-put, undo-delete}

module _ (db : Bolt) where
  -- Does the contract expire at the height? A bucket that is empty reads like one that is missing.
  abbrev pub expires_at : BlockHeight → Hash → Contracts db → Option {0} Unit
  expires_at h id c = db.get id (bucket_or_empty db (db.get h c.expirations))

  pub record SameContracts (c c' : Contracts db) : Type 0 where
    pub same_contracts : SameBucket db c.file_contracts c'.file_contracts
    pub same_expirations : (h : BlockHeight) (id : Hash) → expires_at h id c ≡ expires_at h id c'

  -- What a diff adds is new, what it removes is there as it is recorded, and expires.
  abbrev pub FitsContracts : FileContractDiff → Contracts db → Type 0
  FitsContracts fcd c =
      (db.get fcd.id c.file_contracts ≡ (if fcd.direction then none else some fcd.file_contract))
      × (expires_at fcd.file_contract.window_end fcd.id c
          ≡ (if fcd.direction then none else some tt))

module _ (db : Bolt) (law : IsLawful db) where
  -- Reading an expiration after the bucket of one height was put in.
  expires-put :
      (h e : BlockHeight) (i : Hash) (bucket : db.Bucket Unit) (exps : db.Bucket (db.Bucket Unit))
      → db.get i (bucket_or_empty db (db.get h (db.put e bucket exps)))
        ≡ (if h == e then db.get i bucket else db.get i (bucket_or_empty db (db.get h exps)))
  unfolding bucket_or_empty
  expires-put h e i bucket exps =
      let read : Option (db.Bucket Unit) → Option {0} Unit = λ o. db.get i (bucket_or_empty db o) in
      ap read (law.get-put h e bucket exps) ∙ if-ap read (h == e) (some bucket) (db.get h exps)

  expires-add :
      (h : BlockHeight) (i id : Hash) (fc : FileContract) (c : Contracts db)
      → expires_at db h i (add_file_contract db id fc c)
        ≡ (if (h == fc.window_end) && (i == id) then some tt else expires_at db h i c)
  unfolding add_file_contract
  expires-add h i id fc c =
      let e = fc.window_end in
      let r =
        expires-put h e i (db.put id tt (bucket_or_empty db (db.get e c.expirations)))
          c.expirations in
      let p = law.get-put i id tt (bucket_or_empty db (db.get e c.expirations)) in
      elim (Bool-cases (h == e)) [
        | inl q ↦
            let k : expires_at db h i c ≡ expires_at db e i c =
              ap (λ x. expires_at db x i c) (==→eq h e q) in
            r ∙ (rw (q, p, k) refl)
        | inr q ↦ r ∙ (rw q refl)
      ]

  -- A contract that is there, and expires, is removed without a panic, and only its entries go.
  remove-removes :
      (id : Hash) (fc : FileContract) (c : Contracts db)
      → db.get id c.file_contracts ≡ some fc
      → expires_at db fc.window_end id c ≡ some tt
      → (c' : Contracts db) × (remove_file_contract db id c ≡ some c')
        × (c'.file_contracts ≡ db.delete id c.file_contracts)
        × ((h : BlockHeight) (i : Hash)
            → expires_at db h i c'
              ≡ (if (h == fc.window_end) && (i == id) then none else expires_at db h i c))
  unfolding remove_file_contract bucket_or_empty
  remove-removes id fc c here expires = elim (Option-cases (db.get fc.window_end c.expirations)) [
    | inl e ↦ none-some tt (sym (law.get-empty id) ∙ (sym (ap read e) ∙ expires))
    | inr (bucket, e) ↦
        let entry : db.get id bucket ≡ some tt = sym (ap read e) ∙ expires in
        (
          record {
            file_contracts = db.delete id c.file_contracts;
            expirations = db.put fc.window_end (db.delete id bucket) c.expirations;
          },
          rw (here, e, entry) refl,
          refl,
          λ h i.
              expires-put h fc.window_end i (db.delete id bucket) c.expirations
              ∙ reads-removed h i fc.window_end id (expires_at db h i c)
                  (expires_at db fc.window_end i c) (db.get i (db.delete id bucket))
                  (λ q. ap (λ x. expires_at db x i c) q)
                  (law.get-delete i id bucket
                    ∙ ap (λ o. if i == id then none else o)
                        (sym (ap (λ o. db.get i (bucket_or_empty db o)) e))),
        )
  ]
    where
      read : Option (db.Bucket Unit) → Option {0} Unit
      read o = db.get id (bucket_or_empty db o)

      reads-removed :
          (h i e id : ℕ) (here at_end after : Option {0} Unit)
          → (h ≡ e → here ≡ at_end)
          → after ≡ (if i == id then none else at_end)
          → (if h == e then after else here) ≡ (if (h == e) && (i == id) then none else here)
      reads-removed h i e id here at_end after k p = elim (Bool-cases (h == e)) [
        | inl q ↦ rw (q, k (==→eq h e q), p) refl
        | inr q ↦ rw q refl
      ]

  add-undone :
      (id : Hash) (fc : FileContract) (b c : Contracts db)
      → db.get id b.file_contracts ≡ none
      → expires_at db fc.window_end id b ≡ none
      → SameContracts db c (add_file_contract db id fc b)
      → (c' : Contracts db) × (remove_file_contract db id c ≡ some c') × SameContracts db c' b
  unfolding add_file_contract
  add-undone id fc b c fresh unlisted same =
      let e = fc.window_end in
      let stored : db.get id c.file_contracts ≡ some fc =
        same.same_contracts id ∙ (law.get-put id id fc b.file_contracts ∙ rw (==-refl id) refl) in
      let listed : expires_at db e id c ≡ some tt =
        same.same_expirations e id ∙ (expires-add e id id fc b ∙ rw (==-refl e, ==-refl id) refl) in
      let (c', run, fcs, exps) = remove-removes id fc c stored listed in
      (
        c',
        run,
        record {
          same_contracts = λ k.
              ap (db.get k) fcs
              ∙ undo-put db law id fc b.file_contracts c.file_contracts fresh same.same_contracts k;
          same_expirations = λ h i.
              exps h i
              ∙ ap (λ x. if (h == e) && (i == id) then none else x)
                  (same.same_expirations h i ∙ expires-add h i id fc b)
              ∙ if-if-== (λ h i. expires_at db h i b) none (some tt) h e i id (sym unlisted);
        },
      )

  remove-undone :
      (id : Hash) (fc : FileContract) (b b' c : Contracts db)
      → db.get id b.file_contracts ≡ some fc
      → expires_at db fc.window_end id b ≡ some tt
      → remove_file_contract db id b ≡ some b'
      → SameContracts db c b'
      → SameContracts db (add_file_contract db id fc c) b
  unfolding add_file_contract
  remove-undone id fc b b' c here listed run same =
      let e = fc.window_end in
      let (b1, run1, fcs, exps) = remove-removes id fc b here listed in
      let same1 : SameContracts db c b1 =
        subst (SameContracts db c) (some-injective _ _ (sym run ∙ run1)) same in
      record {
        same_contracts =
            undo-delete db law id fc b.file_contracts c.file_contracts here
              (λ k. same1.same_contracts k ∙ ap (db.get k) fcs);
        same_expirations = λ h i.
            expires-add h i id fc c
            ∙ ap (λ x. if (h == e) && (i == id) then some tt else x)
                (same1.same_expirations h i ∙ exps h i)
            ∙ if-if-== (λ h i. expires_at db h i b) (some tt) none h e i id (sym listed);
      }

  undo-contracts :
      (dir : Bool) (id : Hash) (fc : FileContract) (b b' c : Contracts db)
      → (db.get id b.file_contracts ≡ (if dir then none else some fc))
      → (expires_at db fc.window_end id b ≡ (if dir then none else some tt))
      → (if same_direction dir true
          then some (add_file_contract db id fc b)
          else remove_file_contract db id b)
        ≡ some b'
      → SameContracts db c b'
      → (c' : Contracts db) × ((if same_direction dir false
            then some (add_file_contract db id fc c)
            else remove_file_contract db id c)
          ≡ some c')
        × SameContracts db c' b
  undo-contracts true id fc b b' c fresh unlisted run same =
      add-undone id fc b c fresh unlisted
        (subst (SameContracts db c) (sym (some-injective _ _ run)) same)
  undo-contracts false id fc b b' c here listed run same =
      (add_file_contract db id fc c, refl, remove-undone id fc b b' c here listed run same)

  pub SameContracts-undo :
      (fcd : FileContractDiff) (b b' c : Contracts db)
      → FitsContracts db fcd b
      → commit_file_contract_diff db true fcd b ≡ some b'
      → SameContracts db c b'
      → (c' : Contracts db) × (commit_file_contract_diff db false fcd c ≡ some c')
        × SameContracts db c' b
  unfolding commit_file_contract_diff
  SameContracts-undo fcd b b' c fit run same =
      undo-contracts fcd.direction fcd.id fcd.file_contract b b' c (fit.0) (fit.1) run same

  -- A diff that fits does not panic.
  pub FitsContracts-runs :
      (fcd : FileContractDiff) (b : Contracts db)
      → FitsContracts db fcd b
      → (b' : Contracts db) × (commit_file_contract_diff db true fcd b ≡ some b')
  unfolding commit_file_contract_diff
  FitsContracts-runs fcd b fit = elim (Bool-cases fcd.direction) [
    | inl e ↦ (add_file_contract db fcd.id fcd.file_contract b, rw e refl)
    | inr e ↦
        let (b', run, _, _) =
          remove-removes fcd.id fcd.file_contract b (fit.0 ∙ rw e refl) (fit.1 ∙ rw e refl) in
        (b', rw e run)
  ]
