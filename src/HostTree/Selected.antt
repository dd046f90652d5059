-- ===== src/HostTree/Selected.antt =====
-- modules/renter/hostdb/hosttree/hosttree.go: `SelectRandom` as a whole.
use sia_prime.Prelude.{
  Option-cases, length, All, ℕ, ◌≤◌, ◌<◌, ◌≡◌, refl, sym, ◌∙◌, inl, inr, some, List, [], ◌∷◌, arith,
}
use sia_prime.HostTree.Tree.{HostDbEntry}
use sia_prime.HostTree.Draws.{taken_at-entry_at}
use sia_prime.HostTree.Hosts.{HostTree, find}
use sia_prime.HostTree.Good.{IsConsistent, held}
use sia_prime.HostTree.Select.{
  Outside, Filter, filter_add, block_addresses, put_back, Drawing, select_random,
}
use sia_prime.HostTree.Parts.{none-Parts, put_back-whole, take_out-Parts}
use sia_prime.HostTree.Chosen.{NoRepeats, PositiveWeights, Chosen}
use sia_prime.HostTree.Drawn.{draw_hosts-IsDrawn}

block_addresses-runs :
    (outside : Outside) (pks : List ℕ) (ht : HostTree) (f : Filter)
    → IsConsistent ht
    → (f' : Filter) × (block_addresses outside pks ht f ≡ some f')
unfolding block_addresses
block_addresses-runs outside [] ht f c = (f, refl)
block_addresses-runs outside (pk ∷ pks) ht f c = elim (Option-cases (find pk ht.hosts)) [
  | inl a ↦
      let (f', run) = block_addresses-runs outside pks ht f c in (f', rw (block_addresses, a) run)
  | inr (p, a) ↦
      let (e, here, _) = c.placed pk p a in
      let (f', run) =
        block_addresses-runs outside pks ht (filter_add outside e.host.net_address f) c in
      (f', rw (block_addresses, a) (rw (taken_at-entry_at p ht.root e here) run))
]

-- In a consistent tree whose hosts weigh more than nothing, and with random numbers below their bounds,
-- `SelectRandom` returns: at most as many hosts as asked for, each held in the tree, not blacklisted,
-- accepting contracts and online when last scanned, and none of them twice; and the tree holds
-- afterwards what it held before, and is consistent.
pub select_random_lem :
    (outside : Outside) (n : ℕ) (blacklist address_blacklist : List ℕ) (ht : HostTree)
    → IsConsistent ht
    → PositiveWeights ht
    → ((j b : ℕ) → 0 < b → outside.big_intn j b < b)
    → (hosts : List HostDbEntry) × (ht' : HostTree) × (select_random outside n blacklist
          address_blacklist ht
        ≡ some (hosts, ht'))
      × (length hosts ≤ n)
      × All (Chosen outside ht n blacklist) hosts
      × NoRepeats hosts
      × IsConsistent ht'
      × ((k : ℕ) → held k ht' ≡ held k ht)
unfolding select_random
select_random_lem outside n blacklist address_blacklist ht c positive random =
    let (f, run1) = block_addresses-runs outside address_blacklist ht [] c in
    let (out, run2, parts, _, banned) = take_out-Parts blacklist ht ht [] (none-Parts ht c) in
    let start : Drawing = record { tree = out.0; filter = f; chosen = []; removed = out.1 } in
    let (d, run3, inv, _) =
      draw_hosts-IsDrawn outside ht n blacklist (length (out.0).hosts) 0 start
        (record {
          parts = parts;
          bound = omega arith;
          all_chosen = tt;
          banned = banned;
          seen = tt;
          no_repeats = tt;
        })
        positive random (omega arith) in
    let (c', back) =
      put_back-whole d.removed d.tree inv.parts.consistent inv.parts.distinct inv.parts.apart in
    (
      d.chosen,
      put_back d.removed d.tree,
      rw run1 (rw run2 (rw run3 refl)),
      inv.bound,
      inv.all_chosen,
      inv.no_repeats,
      c',
      λ k. back k ∙ sym (inv.parts.together k),
    )
