-- ===== src/Consensus/ChangeLog/Chain.antt =====
-- modules/consensus/changelog.go: the nodes form a chain that has the entries in their order.
use sia_prime.Prelude.{
  ◌==◌, if◌then◌else◌, All, All-append, ◌≡◌, refl, ap, ◌∙◌, false, none, some, List, [], ◌∷◌, ◌++◌,
  arith,
}
use sia_prime.Types.Data.{Hash}
use sia_prime.Types.Ids.{Crypto}
use sia_prime.Consensus.Bolt.{Bolt, IsLawful}
use sia_prime.Consensus.Panic.{==-refl}
use sia_prime.Consensus.ChangeLog.{
  ChangeEntry, ChangeNode, ChangeLog, entry_id, or_zero_id, link_tail,
}

module _ (crypto : Crypto) where
  abbrev pub next_id : List ChangeEntry → Hash
  next_id [] = 0
  next_id (e ∷ es) = entry_id crypto e

  abbrev pub last_id : Hash → List ChangeEntry → Hash
  last_id id [] = id
  last_id id (e ∷ es) = last_id (entry_id crypto e) es

  -- An id is the id of none of the entries.
  abbrev pub Fresh : Hash → List ChangeEntry → Type 0
  Fresh id es = All (λ e. (entry_id crypto e == id) ≡ false) es

  abbrev pub Distinct : List ChangeEntry → Type 0
  Distinct [] = Unit
  Distinct (e ∷ es) = Fresh (entry_id crypto e) es × Distinct es

module _ (db : Bolt) (crypto : Crypto) where
  -- Each entry is under its id, with the id of the one after it.
  abbrev pub Chain : db.Bucket ChangeNode → List ChangeEntry → Type 0
  Chain nodes [] = Unit
  Chain nodes (e ∷ es) =
      (db.get (entry_id crypto e) nodes ≡ some (record { entry = e; next = next_id crypto es }))
      × Chain nodes es

  -- The log holds the entries, in their order; the zero id is the id of none.
  pub record Logs (log : ChangeLog db) (es : List ChangeEntry) : Type 0 where
    pub chain : Chain log.nodes es
    pub tail : or_zero_id log.tail_id ≡ last_id crypto 0 es
    pub distinct : Distinct crypto es
    pub no_zero : Fresh crypto 0 es
    pub zero_free : db.get 0 log.nodes ≡ none

module _ (crypto : Crypto) where
  -- What holds of the id of each entry, and of the first one, holds of the last one.
  pub last_id-All :
      (P : Hash → Type 0) (id : Hash) (es : List ChangeEntry)
      → P id
      → All (λ e. P (entry_id crypto e)) es
      → P (last_id crypto id es)
  last_id-All P id [] here all = here
  last_id-All P id (e ∷ es) here (next, all) = last_id-All P (entry_id crypto e) es next all

  pub last_id-append :
      (id : Hash) (es : List ChangeEntry) (ce : ChangeEntry)
      → last_id crypto id (es ++ (ce ∷ [])) ≡ entry_id crypto ce
  last_id-append id [] ce = refl
  last_id-append id (e ∷ es) ce = last_id-append (entry_id crypto e) es ce

  pub ==-flip : (i j : Hash) → (i == j) ≡ false → (j == i) ≡ false
  ==-flip i j h = ground arith

  pub Distinct-append :
      (es : List ChangeEntry) (ce : ChangeEntry)
      → Distinct crypto es
      → Fresh crypto (entry_id crypto ce) es
      → Distinct crypto (es ++ (ce ∷ []))
  Distinct-append [] ce distinct fresh = (tt, tt)
  Distinct-append (e ∷ es) ce (first, distinct) (other, fresh) = (
    All-append _ es (ce ∷ []) first (==-flip (entry_id crypto e) (entry_id crypto ce) other, tt),
    Distinct-append es ce distinct fresh,
  )

module _ {db : Bolt} (law : IsLawful db) where
  pub get-put-other :
      (j k : Hash) (node : ChangeNode) (nodes : db.Bucket ChangeNode)
      → (j == k) ≡ false
      → db.get j (db.put k node nodes) ≡ db.get j nodes
  get-put-other j k node nodes other = law.get-put j k node nodes ∙ rw other refl

  pub get-put-same :
      (k : Hash) (node : ChangeNode) (nodes : db.Bucket ChangeNode)
      → db.get k (db.put k node nodes) ≡ some node
  get-put-same k node nodes =
      law.get-put k k node nodes ∙ ap (λ b. if b then some node else db.get k nodes) (==-refl k)

module _ {db : Bolt} (law : IsLawful db) (crypto : Crypto) where
  -- The chain grows by an entry when the node of its last entry is made to point to it; what is under
  -- other ids stays.
  pub link_tail-Chain :
      (nodes : db.Bucket ChangeNode) (ce e : ChangeEntry) (es : List ChangeEntry)
      → Chain db crypto nodes (e ∷ es)
      → Distinct crypto (e ∷ es)
      → Fresh crypto (entry_id crypto ce) (e ∷ es)
      → (linked : db.Bucket ChangeNode) × (link_tail db
            (last_id crypto (entry_id crypto e) es)
            (entry_id crypto ce)
            (db.put (entry_id crypto ce) (record { entry = ce; next = 0 }) nodes)
          ≡ some linked)
        × ((j : Hash)
            → (j == entry_id crypto ce) ≡ false
            → (j == last_id crypto (entry_id crypto e) es) ≡ false
            → db.get j linked ≡ db.get j nodes)
        × Chain db crypto linked ((e ∷ es) ++ (ce ∷ []))
  unfolding link_tail
  link_tail-Chain nodes ce e [] (here, _) distinct (other, _) =
      let id = entry_id crypto ce in
      let node : ChangeNode = record { entry = ce; next = 0 } in
      let pointing : ChangeNode = record { entry = e; next = id } in
      let nodes' = db.put id node nodes in
      let found : db.get (entry_id crypto e) nodes' ≡ some (record { entry = e; next = 0 }) =
        get-put-other law (entry_id crypto e) id node nodes other ∙ here in
      (
        db.put (entry_id crypto e) pointing nodes',
        rw (link_tail, found) refl,
        λ j n m.
            get-put-other law j (entry_id crypto e) pointing nodes' m
            ∙ get-put-other law j id node nodes n,
        (
          get-put-same law (entry_id crypto e) pointing nodes',
          (
            get-put-other law id (entry_id crypto e) pointing nodes'
                  (==-flip crypto (entry_id crypto e) id other)
                ∙ get-put-same law id node nodes,
            tt,
          ),
        ),
      )
  link_tail-Chain nodes ce e (f ∷ fs) (here, chain) (first, distinct) (other, fresh) =
      let (linked, run, elsewhere, rest) = link_tail-Chain nodes ce f fs chain distinct fresh in
      let last = last_id crypto (entry_id crypto f) fs in
      let apart : (entry_id crypto e == last) ≡ false = ==-flip crypto last (entry_id crypto e) (
        last_id-All crypto (λ i. (i == entry_id crypto e) ≡ false) (entry_id crypto f) fs first.0
          first.1) in
      (linked, run, elsewhere, (elsewhere (entry_id crypto e) other apart ∙ here, rest))
