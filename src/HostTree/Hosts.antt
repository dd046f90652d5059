-- ===== src/HostTree/Hosts.antt =====
-- modules/renter/hostdb/hosttree/hosttree.go: the tree with its map of public keys to nodes. A nil
-- dereference is `none`. The map is a list without an order that the code could rely on.
use sia_prime.Prelude.{ltb, ◌==◌, if◌then◌else◌, ℕ, false, Option, none, some, List, [], ◌∷◌, map}
use sia_prime.Prelude.Fallible.{◌>>=◌, pure}
use sia_prime.Types.Data.{Currency}
use sia_prime.HostTree.Tree.{
  HostDbEntry, HostEntry, key_of, Node, nil, node, Place, insert_at_root, entry_at, remove,
}

pub record HostTree : Type 0 where
  pub root : Node
  pub hosts : List (ℕ × Place)
  pub weight_fn : HostDbEntry → Currency

pub data HostTreeError : Type 0 where
  host_exists no_such_host : HostTreeError

abbrev pub Failure : Type 0
Failure = Option HostTreeError

unfoldable pub find : ℕ → List (ℕ × Place) → Option Place
find k [] = none
find k ((j, p) ∷ m) = if k == j then some p else find k m

unfoldable pub unset : ℕ → List (ℕ × Place) → List (ℕ × Place)
unset k [] = []
unset k ((j, p) ∷ m) = let rest = unset k m in if k == j then rest else (j, p) ∷ rest

unfoldable pub set : ℕ → Place → List (ℕ × Place) → List (ℕ × Place)
unfolding unset
set k p m = (k, p) ∷ unset k m

unfoldable pub empty_root : Node
empty_root = node nil nil 1 false 0 none

unfoldable pub new_host_tree : (HostDbEntry → Currency) → HostTree
unfolding empty_root
new_host_tree wf = record { root = empty_root; hosts = []; weight_fn = wf }

-- An entry is put into the tree, and its node into the map.
unfoldable pub put_entry : HostEntry → HostTree → HostTree
put_entry e ht =
    let i = insert_at_root e ht.root in
    record ht { root = i.tree; hosts = set (key_of e) i.new_node ht.hosts }

-- A node is removed, and its key from the map.
unfoldable pub drop_entry : ℕ → Place → HostTree → Option HostTree
drop_entry k p ht = do
  root' ← remove p ht.root
  pure (record ht { root = root'; hosts = unset k ht.hosts })

abbrev pub weigh : HostTree → HostDbEntry → HostEntry
weigh ht hdbe = record { host = hdbe; weight = ht.weight_fn hdbe }

unfoldable pub insert : HostDbEntry → HostTree → Failure × HostTree
insert hdbe ht = elim (find hdbe.public_key ht.hosts) [
  | some p ↦ (some host_exists, ht)
  | none ↦ (none, put_entry (weigh ht hdbe) ht)
]

unfoldable pub remove_host : ℕ → HostTree → Option (Failure × HostTree)
remove_host pk ht = elim (find pk ht.hosts) [
  | none ↦ some (some no_such_host, ht)
  | some p ↦ drop_entry pk p ht >>= λ ht'. some (none, ht')
]

-- The old node leaves the tree, and the map entry is overwritten.
unfoldable pub modify : HostDbEntry → HostTree → Option (Failure × HostTree)
modify hdbe ht = elim (find hdbe.public_key ht.hosts) [
  | none ↦ some (some no_such_host, ht)
  | some p ↦ remove p ht.root >>= λ root'.
      some (none, put_entry (weigh ht hdbe) (record ht { root = root' }))
]

unfoldable pub select : ℕ → HostTree → Option (Option HostDbEntry)
select pk ht = elim (find pk ht.hosts) [
  | none ↦ some none
  | some p ↦ entry_at p ht.root >>= λ e. some (some e.host)
]

-- `sort.Sort` by weight: one of its results.
unfoldable pub insert_by_weight : HostEntry → List HostEntry → List HostEntry
insert_by_weight e [] = e ∷ []
insert_by_weight e (f ∷ fs) =
    let rest = insert_by_weight e fs in if ltb f.weight e.weight then f ∷ rest else e ∷ f ∷ fs

unfoldable pub sort_by_weight : List HostEntry → List HostEntry
unfolding insert_by_weight
sort_by_weight [] = []
sort_by_weight (e ∷ es) = insert_by_weight e (sort_by_weight es)

unfoldable pub entries_of : List (ℕ × Place) → Node → Option (List HostEntry)
entries_of [] n = some []
entries_of ((k, p) ∷ m) n = entry_at p n >>= λ e. entries_of m n >>= λ es. some (e ∷ es)

unfoldable pub all : HostTree → Option (List HostDbEntry)
unfolding sort_by_weight
all ht = entries_of ht.hosts ht.root >>= λ es. some (map HostEntry.host (sort_by_weight es))

abbrev pub compose : Failure → List HostTreeError → List HostTreeError
compose none errs = errs
compose (some err) errs = err ∷ errs

-- The errors of the insertions, the latest first.
unfoldable pub insert_all :
    List HostDbEntry → List HostTreeError → HostTree → List HostTreeError × HostTree
insert_all [] errs ht = (errs, ht)
insert_all (h ∷ hs) errs ht = let (err, ht') = insert h ht in insert_all hs (compose err errs) ht'

unfoldable pub set_weight_function :
    (HostDbEntry → Currency) → HostTree → Option (List HostTreeError × HostTree)
unfolding new_host_tree
set_weight_function wf ht = all ht >>= λ hs. some (insert_all hs [] (new_host_tree wf))
