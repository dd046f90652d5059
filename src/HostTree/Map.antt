-- ===== src/HostTree/Map.antt =====
-- modules/renter/hostdb/hosttree/hosttree.go: the operations of the tree are those of a finite map from
-- public keys to weighted hosts.
use sia_prime.Prelude.{
  ◌==◌, if◌then◌else◌, Bool-cases, Option-cases, ℕ, ◌+◌, ◌≡◌, refl, sym, ap, ◌∙◌, inl, inr, Option,
  none, some, [], ◌∷◌, arith,
}
use sia_prime.Types.Data.{Currency}
use sia_prime.Consensus.Panic.{none-some, if-==}
use sia_prime.HostTree.Tree.{
  HostDbEntry, HostEntry, key_of, to_left, to_right, Place, weight_of, take_off,
}
use sia_prime.HostTree.Weights.{taken_at, take_off-IsWeighted}
use sia_prime.HostTree.Draws.{taken_at-entry_at}
use sia_prime.HostTree.Hosts.{
  HostTree, host_exists, no_such_host, find, unset, empty_root, new_host_tree, put_entry, weigh,
  insert, remove_host, modify, select, all,
}
use sia_prime.HostTree.Good.{
  IsConsistent, taken_there, held, find-unset, without, put-held, put-IsConsistent, dropped,
  remove-runs, drop_entry-runs, dropped-IsConsistent, dropped-held,
}
use mathlib.Core.Option

-- What is held has a place in the map.
pub held-place :
    (k : ℕ) (ht : HostTree) (e : HostEntry)
    → held k ht ≡ some e
    → (p : Place) × (find k ht.hosts ≡ some p) × (taken_at p ht.root ≡ some e)
held-place k ht e h = elim (Option-cases (find k ht.hosts)) [
  | inl a ↦ none-some e (sym (ap (λ o. taken_there o ht.root) a) ∙ h)
  | inr (p, a) ↦ (p, a, sym (ap (λ o. taken_there o ht.root) a) ∙ h)
]

pub held-none :
    (k : ℕ) (ht : HostTree) → IsConsistent ht → held k ht ≡ none → find k ht.hosts ≡ none
held-none k ht c h = elim (Option-cases (find k ht.hosts)) [
  | inl a ↦ a
  | inr (p, a) ↦
      let (e, here, _) = c.placed k p a in
      none-some e (sym h ∙ (ap (λ o. taken_there o ht.root) a ∙ here))
]

-- To forget a key that the map does not have changes nothing.
pub absent-IsConsistent :
    (k : ℕ) (ht : HostTree)
    → IsConsistent ht
    → find k ht.hosts ≡ none
    → IsConsistent (without k ht) × ((j : ℕ) → find j (unset k ht.hosts) ≡ find j ht.hosts)
absent-IsConsistent k ht c absent =
    let same : (j : ℕ) → find j (unset k ht.hosts) ≡ find j ht.hosts =
      λ j. find-unset j k ht.hosts ∙ if-== (λ i. find i ht.hosts) none j k (sym absent) in
    (
      record {
        weighted = c.weighted;
        placed = λ j p h. c.placed j p (sym (same j) ∙ h);
        registered = λ p e h. same (key_of e) ∙ c.registered p e h;
      },
      same,
    )

-- A host whose key is new is put into a tree that is consistent, and nothing else changes.
pub put-absent :
    (e : HostEntry) (ht : HostTree)
    → IsConsistent ht
    → held (key_of e) ht ≡ none
    → IsConsistent (put_entry e ht)
      × ((k : ℕ) → held k (put_entry e ht) ≡ (if k == key_of e then some e else held k ht))
put-absent e ht c h =
    let (c', same) = absent-IsConsistent (key_of e) ht c (held-none (key_of e) ht c h) in
    (
      put-IsConsistent e ht c',
      λ k.
          put-held e ht c' k
          ∙ ap (λ o. if k == key_of e then some e else taken_there o ht.root) (same k),
    )

-- In a consistent tree, to insert a host whose key is held is an error and changes nothing; a host
-- with a new key is held from then on, with the weight that the weight function gives, all others stay
-- as they were, and the tree is consistent.
pub insert_refines :
    (hdbe : HostDbEntry) (ht : HostTree)
    → IsConsistent ht
    → ((e : HostEntry) → held hdbe.public_key ht ≡ some e → insert hdbe ht ≡ (some host_exists, ht))
      × (held hdbe.public_key ht ≡ none
          → (ht' : HostTree) × (insert hdbe ht ≡ (none, ht'))
            × IsConsistent ht'
            × ((k : ℕ)
                → held k ht' ≡ (if k == hdbe.public_key then some (weigh ht hdbe) else held k ht)))
unfolding insert
insert_refines hdbe ht c = (
  λ e h. let (p, a, _) = held-place hdbe.public_key ht e h in rw (insert, a) refl,
  λ h.
      let (c', all) = put-absent (weigh ht hdbe) ht c h in
      (put_entry (weigh ht hdbe) ht, rw (insert, held-none hdbe.public_key ht c h) refl, c', all),
)

-- In a consistent tree, to remove a key that is not held is an error and changes nothing; a key that
-- is held is not from then on, its weight leaves the tree's, all others stay as they were, and the tree
-- is consistent.
pub remove_host_refines :
    (pk : ℕ) (ht : HostTree)
    → IsConsistent ht
    → (held pk ht ≡ none → remove_host pk ht ≡ some (some no_such_host, ht))
      × ((e : HostEntry)
          → held pk ht ≡ some e
          → (ht' : HostTree) × (remove_host pk ht ≡ some (none, ht'))
            × IsConsistent ht'
            × (weight_of ht'.root + e.weight ≡ weight_of ht.root)
            × ((k : ℕ) → held k ht' ≡ (if k == pk then none else held k ht)))
unfolding remove_host
remove_host_refines pk ht c = (
  λ h. rw (remove_host, held-none pk ht c h) refl,
  λ e h.
      let (p, a, here) = held-place pk ht e h in
      (
        dropped pk p e ht c a here,
        rw (remove_host, a) (rw (drop_entry-runs pk p e ht c a here) refl),
        dropped-IsConsistent pk p e ht c a here,
        (take_off-IsWeighted p ht.root e c.weighted here).1,
        dropped-held pk p e ht c a here,
      ),
)

replaced :
    (k pk : ℕ) (new old rest : Option HostEntry)
    → old ≡ (if k == pk then none else rest)
    → (if k == pk then new else old) ≡ (if k == pk then new else rest)
replaced k pk new old rest h = elim (Bool-cases (k == pk)) [
  | inl a ↦ rw a refl
  | inr a ↦ rw a (h ∙ rw a refl)
]

-- In a consistent tree, to modify a key that is not held is an error and changes nothing; where the key
-- is held, the new host takes the place of the old one, with the weight that the weight function gives,
-- all others stay as they were, and the tree is consistent.
pub modify_refines :
    (hdbe : HostDbEntry) (ht : HostTree)
    → IsConsistent ht
    → (held hdbe.public_key ht ≡ none → modify hdbe ht ≡ some (some no_such_host, ht))
      × ((e : HostEntry)
          → held hdbe.public_key ht ≡ some e
          → (ht' : HostTree) × (modify hdbe ht ≡ some (none, ht'))
            × IsConsistent ht'
            × ((k : ℕ)
                → held k ht' ≡ (if k == hdbe.public_key then some (weigh ht hdbe) else held k ht)))
unfolding modify
modify_refines hdbe ht c = (
  λ h. rw (modify, held-none hdbe.public_key ht c h) refl,
  λ e h.
      let pk = hdbe.public_key in
      let (p, a, here) = held-place pk ht e h in
      let off = record ht { root = take_off p e.weight ht.root } in
      let c' = dropped-IsConsistent pk p e ht c a here in
      (
        put_entry (weigh ht hdbe) off,
        rw (modify, a) (rw (remove-runs pk p e ht c a here) refl),
        put-IsConsistent (weigh ht hdbe) off c',
        λ k.
            put-held (weigh ht hdbe) off c' k
            ∙ replaced k pk (some (weigh ht hdbe)) _ _ (dropped-held pk p e ht c a here k),
      ),
)

nothing_taken :
    (p : Place) (e : HostEntry) → taken_at p empty_root ≡ some e → find (key_of e) [] ≡ some p
unfolding empty_root
nothing_taken [] e h = none-some e h
nothing_taken (to_left ∷ p) e h = none-some e h
nothing_taken (to_right ∷ p) e h = none-some e h

-- The tree that holds nothing.
pub new_host_tree-IsConsistent :
    (wf : HostDbEntry → Currency)
    → IsConsistent (new_host_tree wf) × ((k : ℕ) → held k (new_host_tree wf) ≡ none)
unfolding new_host_tree find
new_host_tree-IsConsistent wf = (
  record {
    weighted = (refl, refl, tt, tt, tt);
    placed = λ k p h. absurd (ground arith);
    registered = nothing_taken;
  },
  λ k. refl,
)

-- The entry of a key that is held is selected.
pub select_lem :
    (pk : ℕ) (ht : HostTree)
    → IsConsistent ht
    → select pk ht ≡ some (Option.map HostEntry.host (held pk ht))
unfolding select
select_lem pk ht c = elim (Option-cases (find pk ht.hosts)) [
  | inl a ↦ rw (select, a) refl
  | inr (p, a) ↦
      let (e, here, _) = c.placed pk p a in
      rw (select, a) (rw (taken_at-entry_at p ht.root e here, here) refl)
]
