-- ===== src/HostTree/Tree.antt =====
-- modules/renter/hostdb/hosttree/hosttree.go: the nodes. A pointer to a node is the way to it from the
-- root, which never changes, since nodes are not moved; what the code does through parent pointers is
-- done on the way down. A nil node is `nil`.
use sia_prime.Prelude.{
  ltb, leb, if◌then◌else◌, ℕ, ◌+◌, Bool, true, false, Option, none, some, List, [], ◌∷◌,
}
use mathlib.Core.Option
use sia_prime.Types.Data.{Currency}
use sia_prime.Types.Currency.{add, sub}

-- Of modules.HostDBEntry, what the tree reads: the bytes of the public key as a number, the address,
-- and whether each scan succeeded, the latest last.
pub record HostDbEntry : Type 0 where
  pub public_key : ℕ
  pub net_address : ℕ
  pub accepting_contracts : Bool
  pub scan_history : List Bool

pub record HostEntry : Type 0 where
  pub host : HostDbEntry
  pub weight : Currency

abbrev pub key_of : HostEntry → ℕ
key_of e = e.host.public_key

pub data Node : Type 0 where
  nil : Node
  node :
      (left right : Node) (count : ℕ) (taken : Bool) (weight : Currency) (entry : Option HostEntry)
      → Node

pub data Side : Type 0 where
  to_left to_right : Side

abbrev pub Place : Type 0
Place = List Side

abbrev pub is_nil : Node → Bool
is_nil nil = true
is_nil (node l r c t w e) = false

abbrev pub count_of : Node → ℕ
count_of nil = 0
count_of (node l r c t w e) = c

abbrev pub weight_of : Node → Currency
weight_of nil = 0
weight_of (node l r c t w e) = w

unfoldable pub create_node : HostEntry → Node
create_node e = node nil nil 1 true e.weight (some e)

-- The number of nodes that were added, the new node, and the tree.
pub record Inserted : Type 0 where
  pub nodes_added : ℕ
  pub new_node : Place
  pub tree : Node

-- A node that is taken passes the entry on to a side.
unfoldable pub insert_left : Node → ℕ → Currency → Option HostEntry → Inserted → Inserted
insert_left r c w e i = record {
  nodes_added = i.nodes_added;
  new_node = to_left ∷ i.new_node;
  tree = node i.tree r (c + i.nodes_added) true w e;
}

unfoldable pub insert_right : Node → ℕ → Currency → Option HostEntry → Inserted → Inserted
insert_right l c w e i = record {
  nodes_added = i.nodes_added;
  new_node = to_right ∷ i.new_node;
  tree = node l i.tree (c + i.nodes_added) true w e;
}

-- A child that is nil is created; among two children, the one with fewer nodes gets the entry.
unfoldable pub recursive_insert : HostEntry → Node → Inserted
recursive_insert new nil = record { nodes_added = 1; new_node = []; tree = create_node new }
recursive_insert new (node l r c false w e) = record {
  nodes_added = 0;
  new_node = [];
  tree = node l r c true (add w new.weight) (some new);
}
recursive_insert new (node l r c true w e) =
    let in_left = insert_left r c (add w new.weight) e (recursive_insert new l) in
    let in_right = insert_right l c (add w new.weight) e (recursive_insert new r) in
    if is_nil l
    then in_left
    else if is_nil r
    then in_right
    else if leb (count_of l) (count_of r)
    then in_left
    else in_right

-- At the root, which has no parent: without children and not taken, its weight is the entry's.
unfoldable pub insert_at_root : HostEntry → Node → Inserted
insert_at_root new (node nil nil c false w e) = record {
  nodes_added = 0;
  new_node = [];
  tree = node nil nil c true new.weight (some new);
}
insert_at_root new n = recursive_insert new n

-- `none` is a nil node, which the code reports as corruption.
unfoldable pub node_at_weight : Currency → Node → Option Place
node_at_weight x nil = none
node_at_weight x (node l r c t w e) =
    let in_left = node_at_weight x l in
    let rest = sub x (weight_of l) in
    let in_right = node_at_weight rest r in
    if ltb w x
    then none
    else if ltb x (weight_of l)
    then Option.map (λ p. to_left ∷ p) in_left
    else if ltb rest (weight_of r)
    then Option.map (λ p. to_right ∷ p) in_right
    else if t
    then some []
    else none

-- The entry of a node, and whether the node is taken.
unfoldable pub entry_at : Place → Node → Option HostEntry
entry_at p nil = none
entry_at [] (node l r c t w e) = e
entry_at (to_left ∷ p) (node l r c t w e) = entry_at p l
entry_at (to_right ∷ p) (node l r c t w e) = entry_at p r

-- The weight is taken off the node and off all nodes above it.
unfoldable pub take_off : Place → Currency → Node → Node
take_off p x nil = nil
take_off [] x (node l r c t w e) = node l r c false (sub w x) e
take_off (to_left ∷ p) x (node l r c t w e) = node (take_off p x l) r c t (sub w x) e
take_off (to_right ∷ p) x (node l r c t w e) = node l (take_off p x r) c t (sub w x) e

-- `none` is a nil entry, which the code dereferences.
unfoldable pub remove : Place → Node → Option Node
remove p n = elim (entry_at p n) [ none ↦ none | some e ↦ some (take_off p e.weight n) ]
