-- ===== src/HostTree/Tests.antt =====
-- Runs of the tree of hosts at concrete values, and the theorems applied to them.
use sia_prime.Prelude.{
  ◌==◌, if◌then◌else◌, Bool-cases, length, All, ℕ, ◌+◌, ◌≤◌, ◌<◌, ◌≡◌, refl, sym, ◌∙◌, subst, inl,
  inr, true, false, none, some, some-injective, List, [], ◌∷◌, arith,
}
use sia_prime.Prelude.Fallible.{none-some}
use sia_prime.Types.Currency.{add, sub}
use sia_prime.HostTree.Tree.{
  HostDbEntry, HostEntry, weight_of, create_node, insert_left, recursive_insert, insert_at_root,
  node_at_weight, entry_at,
}
use sia_prime.HostTree.Picks.{taken_entries}
use sia_prime.HostTree.Draws.{count_below, weight_with_key, draws_key, draws-proportional}
use sia_prime.HostTree.Hosts.{
  HostTree, host_exists, no_such_host, find, unset, set, empty_root, new_host_tree, put_entry,
  weigh, insert, remove_host, modify,
}
use sia_prime.HostTree.Good.{IsConsistent, held}
use sia_prime.HostTree.Map.{
  put-absent, insert_refines, remove_host_refines, modify_refines, new_host_tree-IsConsistent,
}
use sia_prime.HostTree.Select.{Outside, select_random}
use sia_prime.HostTree.Chosen.{NoRepeats, PositiveWeights, Chosen}
use sia_prime.HostTree.Selected.{select_random_lem}

-- A host weighs as much as its address says.
abbrev host : ℕ → ℕ → HostDbEntry
host key weight = record {
  public_key = key;
  net_address = weight;
  accepting_contracts = true;
  scan_history = false ∷ true ∷ [];
}

abbrev empty_tree : HostTree
empty_tree = new_host_tree HostDbEntry.net_address

empty-IsConsistent : IsConsistent empty_tree
empty-IsConsistent = (new_host_tree-IsConsistent HostDbEntry.net_address).0

abbrev first_host : HostEntry
first_host = record { host = host 1 10; weight = 10 }

abbrev second_host : HostEntry
second_host = record { host = host 2 30; weight = 30 }

abbrev one_host : HostTree
one_host = put_entry first_host empty_tree

abbrev two_hosts : HostTree
two_hosts = put_entry second_host one_host

one_host-held :
    IsConsistent one_host
    × ((k : ℕ) → held k one_host ≡ (if k == 1 then some first_host else held k empty_tree))
unfolding find new_host_tree
one_host-held = put-absent first_host empty_tree empty-IsConsistent refl

two_hosts-held :
    IsConsistent two_hosts
    × ((k : ℕ) → held k two_hosts ≡ (if k == 2 then some second_host else held k one_host))
unfolding put_entry insert_at_root recursive_insert new_host_tree empty_root set unset find
two_hosts-held = put-absent second_host one_host (one_host-held.0) refl

two_hosts-positive : PositiveWeights two_hosts
two_hosts-positive k e h = elim (Bool-cases (k == 2)) [
  | inl a ↦
      let same : second_host ≡ e = some-injective _ _ (sym (two_hosts-held.1 k ∙ rw a refl) ∙ h) in
      subst (λ x. 0 < x.weight) same (omega arith)
  | inr a ↦
      let one = one_host-held.1 k in
      elim (Bool-cases (k == 1)) [
        | inl b ↦
            let same : first_host ≡ e =
              some-injective _ _ (sym (two_hosts-held.1 k ∙ (rw a (one ∙ rw b refl))) ∙ h) in
            subst (λ x. 0 < x.weight) same (omega arith)
        | inr b ↦ none-some e (
            sym (
              two_hosts-held.1 k
              ∙ (rw a (one ∙ (rw b ((new_host_tree-IsConsistent HostDbEntry.net_address).1 k)))))
            ∙ h)
      ]
]

draws-proportional_example :
    count_below (weight_of two_hosts.root) (draws_key 2 two_hosts.root)
    ≡ weight_with_key 2 (taken_entries two_hosts.root)
draws-proportional_example = draws-proportional 2 two_hosts.root (two_hosts-held.0).weighted

-- Thirty of the forty weights draw the second host.
draws-run : count_below 40 (draws_key 2 two_hosts.root) ≡ 30
unfolding node_at_weight entry_at put_entry insert_at_root recursive_insert new_host_tree empty_root
    insert_left create_node add sub
draws-run = refl

insert_refines_example :
    ((e : HostEntry)
      → held 3 two_hosts ≡ some e
      → insert (host 3 5) two_hosts ≡ (some host_exists, two_hosts))
    × (held 3 two_hosts ≡ none
        → (ht' : HostTree) × (insert (host 3 5) two_hosts ≡ (none, ht'))
          × IsConsistent ht'
          × ((k : ℕ)
              → held k ht'
                ≡ (if k == 3 then some (weigh two_hosts (host 3 5)) else held k two_hosts)))
insert_refines_example = insert_refines (host 3 5) two_hosts (two_hosts-held.0)

remove_host_refines_example :
    (held 2 two_hosts ≡ none → remove_host 2 two_hosts ≡ some (some no_such_host, two_hosts))
    × ((e : HostEntry)
        → held 2 two_hosts ≡ some e
        → (ht' : HostTree) × (remove_host 2 two_hosts ≡ some (none, ht'))
          × IsConsistent ht'
          × (weight_of ht'.root + e.weight ≡ weight_of two_hosts.root)
          × ((k : ℕ) → held k ht' ≡ (if k == 2 then none else held k two_hosts)))
remove_host_refines_example = remove_host_refines 2 two_hosts (two_hosts-held.0)

modify_refines_example :
    (held 2 two_hosts ≡ none → modify (host 2 7) two_hosts ≡ some (some no_such_host, two_hosts))
    × ((e : HostEntry)
        → held 2 two_hosts ≡ some e
        → (ht' : HostTree) × (modify (host 2 7) two_hosts ≡ some (none, ht'))
          × IsConsistent ht'
          × ((k : ℕ)
              → held k ht'
                ≡ (if k == 2 then some (weigh two_hosts (host 2 7)) else held k two_hosts)))
modify_refines_example = modify_refines (host 2 7) two_hosts (two_hosts-held.0)

-- Every host is alone in its subnet; every draw is the lowest.
abbrev outside : Outside
outside = record {
  lookup_ip = λ a. some (record { byte_length = 4; subnet = some a } ∷ []);
  big_intn = λ j b. 0;
}

select_random_lem_example :
    (hosts : List HostDbEntry) × (ht' : HostTree) × (select_random outside 2 (1 ∷ []) [] two_hosts
      ≡ some (hosts, ht'))
    × (length hosts ≤ 2)
    × All (Chosen outside two_hosts 2 (1 ∷ [])) hosts
    × NoRepeats hosts
    × IsConsistent ht'
    × ((k : ℕ) → held k ht' ≡ held k two_hosts)
select_random_lem_example =
    select_random_lem outside 2 (1 ∷ []) [] two_hosts (two_hosts-held.0) two_hosts-positive
      (λ j b h. h)
