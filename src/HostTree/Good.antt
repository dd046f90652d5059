-- ===== src/HostTree/Good.antt =====
-- modules/renter/hostdb/hosttree/hosttree.go: the map and the tree agree, and every operation keeps it
-- so; the tree is then a finite map from public keys to weighted hosts.
use sia_prime.Prelude.{
  ◌==◌, if◌then◌else◌, ==→eq, eq→==, Bool-cases, ℕ, ◌≡◌, refl, sym, ap, ◌∙◌, inl, inr, true, false,
  Option, none, some, some-injective, List, [], ◌∷◌, arith,
}
use sia_prime.Prelude.Fallible.{none-some}
use sia_prime.HostTree.Tree.{HostEntry, key_of, Node, Place, insert_at_root, take_off, remove}
use sia_prime.HostTree.Weights.{IsWeighted, taken_at, take_off-IsWeighted}
use sia_prime.HostTree.Places.{
  same_place, same_place_refl, same_place→eq, insert_at_root-places, insert_at_root-IsWeighted,
  take_off-places,
}
use sia_prime.HostTree.Draws.{taken_at-entry_at}
use sia_prime.HostTree.Hosts.{HostTree, find, unset, set, put_entry, drop_entry}

-- Every node's weight is right, a key of the map leads to a taken node with that key, and every taken
-- node is the one of its key.
pub record IsConsistent (ht : HostTree) : Type 0 where
  pub weighted : IsWeighted ht.root
  pub placed :
      (k : ℕ) (p : Place)
      → find k ht.hosts ≡ some p
      → (e : HostEntry) × (taken_at p ht.root ≡ some e) × (key_of e ≡ k)
  pub registered :
      (p : Place) (e : HostEntry) → taken_at p ht.root ≡ some e → find (key_of e) ht.hosts ≡ some p

abbrev pub taken_there : Option Place → Node → Option HostEntry
taken_there none n = none
taken_there (some p) n = taken_at p n

-- The entry with a key: the finite map that the tree stands for.
abbrev pub held : ℕ → HostTree → Option HostEntry
held k ht = taken_there (find k ht.hosts) ht.root

pub find-unset :
    (j k : ℕ) (m : List (ℕ × Place)) → find j (unset k m) ≡ (if j == k then none else find j m)
unfolding find unset
find-unset j k [] = ground arith
find-unset j k ((i, p) ∷ m) = let r = find-unset j k m in ground arith

abbrev pub without : ℕ → HostTree → HostTree
without k ht = record ht { hosts = unset k ht.hosts }

find-set :
    (j k : ℕ) (p : Place) (m : List (ℕ × Place))
    → find j (set k p m) ≡ (if j == k then some p else find j (unset k m))
unfolding find set
find-set j k p m = refl

-- A place that is taken is not a new one.
not-new :
    (n : Node) (p q : Place) (e : HostEntry)
    → taken_at p n ≡ some e
    → taken_at q n ≡ none
    → same_place p q ≡ false
not-new n p q e here free = elim (Bool-cases (same_place p q)) [
  | inr a ↦ a
  | inl a ↦ none-some e (sym free ∙ (ap (λ t. taken_at t n) (sym (same_place→eq p q a)) ∙ here))
]

module _ (e : HostEntry) (ht : HostTree) (c : IsConsistent (without (key_of e) ht)) where
  put-old :
      (p : Place) (e' : HostEntry)
      → taken_at p ht.root ≡ some e'
      → taken_at p (insert_at_root e ht.root).tree ≡ some e'
  put-old p e' h =
      let (fresh, other) = insert_at_root-places e ht.root in
      other p ∙ rw (not-new ht.root p (insert_at_root e ht.root).new_node e' h fresh) h

  put-new : taken_at (insert_at_root e ht.root).new_node (insert_at_root e ht.root).tree ≡ some e
  put-new =
      let (fresh, other) = insert_at_root-places e ht.root in
      let p = (insert_at_root e ht.root).new_node in other p ∙ rw (same_place_refl p) refl

  put-placed :
      (k : ℕ) (p : Place)
      → find k (put_entry e ht).hosts ≡ some p
      → (e' : HostEntry) × (taken_at p (put_entry e ht).root ≡ some e') × (key_of e' ≡ k)
  unfolding put_entry
  put-placed k p h =
      let np = (insert_at_root e ht.root).new_node in
      elim (Bool-cases (k == key_of e)) [
        | inl a ↦
            let same : np ≡ p =
              some-injective _ _ (sym (find-set k (key_of e) np ht.hosts ∙ rw a refl) ∙ h) in
            (
              e,
              ap (λ t. taken_at t (insert_at_root e ht.root).tree) (sym same) ∙ put-new,
              sym (==→eq k (key_of e) a),
            )
        | inr a ↦
            let (e', here, key) =
              c.placed k p (sym (find-set k (key_of e) np ht.hosts ∙ rw a refl) ∙ h) in
            (e', put-old p e' here, key)
      ]

  put-registered :
      (p : Place) (e' : HostEntry)
      → taken_at p (put_entry e ht).root ≡ some e'
      → find (key_of e') (put_entry e ht).hosts ≡ some p
  unfolding put_entry
  put-registered p e' h =
      let (fresh, other) = insert_at_root-places e ht.root in
      let np = (insert_at_root e ht.root).new_node in
      elim (Bool-cases (same_place p np)) [
        | inl a ↦
            let same : e ≡ e' = some-injective _ _ (sym (other p ∙ rw a refl) ∙ h) in
            find-set (key_of e') (key_of e) np ht.hosts
            ∙ (rw (eq→== (key_of e') (key_of e) (ap key_of (sym same)))
                (ap (λ t. some t) (sym (same_place→eq p np a))))
        | inr a ↦
            let old = c.registered p e' (sym (other p ∙ rw a refl) ∙ h) in
            let gone = find-unset (key_of e') (key_of e) ht.hosts in
            elim (Bool-cases (key_of e' == key_of e)) [
              | inl b ↦ none-some p (sym (gone ∙ rw b refl) ∙ old)
              | inr b ↦ find-set (key_of e') (key_of e) np ht.hosts ∙ rw b old
            ]
      ]

  put-kept :
      (k : ℕ) (o : Option Place)
      → find k (unset (key_of e) ht.hosts) ≡ o
      → taken_there o (insert_at_root e ht.root).tree ≡ taken_there o ht.root
  put-kept k none h = refl
  put-kept k (some p) h = let (e', here, key) = c.placed k p h in put-old p e' here ∙ sym here

  -- A new entry is held under its key, and all others stay.
  pub put-held :
      (k : ℕ)
      → held k (put_entry e ht) ≡ (if k == key_of e then some e else held k (without (key_of e) ht))
  unfolding put_entry
  put-held k =
      let np = (insert_at_root e ht.root).new_node in
      let there = λ (o : Option Place). taken_there o (insert_at_root e ht.root).tree in
      let found = find-set k (key_of e) np ht.hosts in
      elim (Bool-cases (k == key_of e)) [
        | inl a ↦
            let here : find k (set (key_of e) np ht.hosts) ≡ some np = found ∙ rw a refl in
            rw a (ap there here ∙ put-new)
        | inr a ↦
            let old : find k (set (key_of e) np ht.hosts) ≡ find k (unset (key_of e) ht.hosts) =
              found ∙ rw a refl in
            rw a (ap there old ∙ put-kept k (find k (unset (key_of e) ht.hosts)) refl)
      ]

  pub put-IsConsistent : IsConsistent (put_entry e ht)
  unfolding put_entry
  put-IsConsistent = record {
    weighted = insert_at_root-IsWeighted e ht.root c.weighted;
    placed = put-placed;
    registered = put-registered;
  }

module _ (k : ℕ) (p : Place) (e : HostEntry) (ht : HostTree) (c : IsConsistent ht)
    (at : find k ht.hosts ≡ some p) (here : taken_at p ht.root ≡ some e) where
  abbrev pub dropped : HostTree
  dropped = record ht { root = take_off p e.weight ht.root; hosts = unset k ht.hosts }

  pub remove-runs : remove p ht.root ≡ some (take_off p e.weight ht.root)
  unfolding remove
  remove-runs = rw (remove, taken_at-entry_at p ht.root e here) refl

  pub drop_entry-runs : drop_entry k p ht ≡ some dropped
  unfolding drop_entry
  drop_entry-runs = rw (drop_entry, remove-runs) refl

  key-dropped : key_of e ≡ k
  key-dropped =
      let (e', here', key) = c.placed k p at in
      ap key_of (some-injective _ _ (sym here ∙ here')) ∙ key

  dropped-other :
      (j : ℕ) (q : Place) (e' : HostEntry)
      → (j == k) ≡ false
      → taken_at q ht.root ≡ some e'
      → key_of e' ≡ j
      → taken_at q (take_off p e.weight ht.root) ≡ some e'
  dropped-other j q e' other there key =
      take_off-places p e.weight ht.root e here q ∙ elim (Bool-cases (same_place q p)) [
        | inr a ↦ rw a there
        | inl a ↦
            let same : e' ≡ e =
              some-injective _ _
                (sym there ∙ (ap (λ t. taken_at t ht.root) (same_place→eq q p a) ∙ here)) in
            let b = eq→== j k (sym key ∙ (ap key_of same ∙ key-dropped)) in absurd (ground arith)
      ]

  dropped-placed :
      (j : ℕ) (q : Place)
      → find j (unset k ht.hosts) ≡ some q
      → (e' : HostEntry) × (taken_at q (take_off p e.weight ht.root) ≡ some e') × (key_of e' ≡ j)
  dropped-placed j q h = elim (Bool-cases (j == k)) [
    | inl a ↦ none-some q (sym (find-unset j k ht.hosts ∙ rw a refl) ∙ h)
    | inr a ↦
        let (e', there, key) = c.placed j q (sym (find-unset j k ht.hosts ∙ rw a refl) ∙ h) in
        (e', dropped-other j q e' a there key, key)
  ]

  dropped-registered :
      (q : Place) (e' : HostEntry)
      → taken_at q (take_off p e.weight ht.root) ≡ some e'
      → find (key_of e') (unset k ht.hosts) ≡ some q
  dropped-registered q e' h =
      let off = take_off-places p e.weight ht.root e here q in
      elim (Bool-cases (same_place q p)) [
        | inl a ↦ none-some e' (sym (off ∙ rw a refl) ∙ h)
        | inr a ↦
            let old = c.registered q e' (sym (off ∙ rw a refl) ∙ h) in
            elim (Bool-cases (key_of e' == k)) [
              | inr b ↦ find-unset (key_of e') k ht.hosts ∙ rw b old
              | inl b ↦
                  let same : p ≡ q =
                    some-injective _ _
                      (sym at ∙ (ap (λ t. find t ht.hosts) (sym (==→eq _ _ b)) ∙ old)) in
                  let c' : same_place q p ≡ true =
                    ap (λ t. same_place t p) (sym same) ∙ same_place_refl p in
                  absurd (ground arith)
            ]
      ]

  pub dropped-IsConsistent : IsConsistent dropped
  dropped-IsConsistent = record {
    weighted = (take_off-IsWeighted p ht.root e c.weighted here).0;
    placed = dropped-placed;
    registered = dropped-registered;
  }

  dropped-kept :
      (j : ℕ) (o : Option Place)
      → (j == k) ≡ false
      → find j ht.hosts ≡ o
      → taken_there o (take_off p e.weight ht.root) ≡ taken_there o ht.root
  dropped-kept j none other h = refl
  dropped-kept j (some q) other h =
      let (e', there, key) = c.placed j q h in dropped-other j q e' other there key ∙ sym there

  -- The entry that is dropped is gone, and all others stay.
  pub dropped-held : (j : ℕ) → held j dropped ≡ (if j == k then none else held j ht)
  dropped-held j =
      let there = λ (o : Option Place). taken_there o (take_off p e.weight ht.root) in
      let found = find-unset j k ht.hosts in
      elim (Bool-cases (j == k)) [
        | inl a ↦
            let gone : find j (unset k ht.hosts) ≡ none = found ∙ rw a refl in rw a (ap there gone)
        | inr a ↦
            let old : find j (unset k ht.hosts) ≡ find j ht.hosts = found ∙ rw a refl in
            rw a (ap there old ∙ dropped-kept j (find j ht.hosts) a refl)
      ]
