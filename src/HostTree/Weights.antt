-- ===== src/HostTree/Weights.antt =====
-- modules/renter/hostdb/hosttree/hosttree.go: every node's weight and count are those of the tree below
-- it, and insertion and removal keep it so.
use sia_prime.Prelude.{
  ltb, leb, Bool-cases, ℕ, suc, ◌+◌, ◌-◌, ◌≤◌, ◌≡◌, refl, ap, ◌∙◌, inl, inr, Bool, true, false,
  Option, none, some, some-injective, [], ◌∷◌, arith,
}
use sia_prime.Types.Data.{Currency}
use sia_prime.Types.Currency.{add, sub}
use sia_prime.HostTree.Tree.{
  HostEntry, Node, nil, node, to_left, to_right, Place, is_nil, count_of, weight_of, create_node,
  Inserted, insert_left, insert_right, recursive_insert, take_off,
}

-- The weight of a node's own host.
abbrev pub own_weight : Bool → Option HostEntry → Currency
own_weight true (some e) = e.weight
own_weight true none = 0
own_weight false e = 0

-- A taken node has an entry.
abbrev pub HasEntry : Bool → Option HostEntry → Type 0
HasEntry true (some e) = Unit
HasEntry true none = ⊥
HasEntry false e = Unit

abbrev pub IsWeighted : Node → Type 0
IsWeighted nil = Unit
IsWeighted (node l r c t w e) =
    (w ≡ own_weight t e + weight_of l + weight_of r)
    × (c ≡ suc (count_of l + count_of r))
    × HasEntry t e
    × IsWeighted l
    × IsWeighted r

-- The entry of a place that is taken.
abbrev pub if_taken : Bool → Option HostEntry → Option HostEntry
if_taken true e = e
if_taken false e = none

abbrev pub taken_at : Place → Node → Option HostEntry
taken_at p nil = none
taken_at [] (node l r c t w e) = if_taken t e
taken_at (to_left ∷ p) (node l r c t w e) = taken_at p l
taken_at (to_right ∷ p) (node l r c t w e) = taken_at p r

abbrev InsertsWeight : HostEntry → Node → Inserted → Type 0
InsertsWeight new n i =
    IsWeighted i.tree
    × (weight_of i.tree ≡ weight_of n + new.weight)
    × (count_of i.tree ≡ count_of n + i.nodes_added)

insert_left-weight :
    (new : HostEntry) (l r : Node) (c : ℕ) (w : Currency) (e : Option HostEntry) (i : Inserted)
    → IsWeighted (node l r c true w e)
    → InsertsWeight new l i
    → InsertsWeight new (node l r c true w e) (insert_left r c (add w new.weight) e i)
unfolding insert_left add
insert_left-weight new l r c w e i (hw, hc, he, hl, hr) (il, wl, cl) =
    ((omega arith, omega arith, he, il, hr), refl, refl)

insert_right-weight :
    (new : HostEntry) (l r : Node) (c : ℕ) (w : Currency) (e : Option HostEntry) (i : Inserted)
    → IsWeighted (node l r c true w e)
    → InsertsWeight new r i
    → InsertsWeight new (node l r c true w e) (insert_right l c (add w new.weight) e i)
unfolding insert_right add
insert_right-weight new l r c w e i (hw, hc, he, hl, hr) (ir, wr, cr) =
    ((omega arith, omega arith, he, hl, ir), refl, refl)

pub recursive_insert-IsWeighted :
    (new : HostEntry) (n : Node) → IsWeighted n → InsertsWeight new n (recursive_insert new n)
unfolding recursive_insert create_node add
recursive_insert-IsWeighted new nil h = ((omega arith, refl, tt, tt, tt), omega arith, refl)
recursive_insert-IsWeighted new (node l r c false w e) (hw, hc, he, hl, hr) =
    ((omega arith, hc, tt, hl, hr), refl, omega arith)
recursive_insert-IsWeighted new (node l r c true w e) h =
    let in_left =
      insert_left-weight new l r c w e (recursive_insert new l) h
        (recursive_insert-IsWeighted new l (h.3)) in
    let in_right =
      insert_right-weight new l r c w e (recursive_insert new r) h
        (recursive_insert-IsWeighted new r (h.4)) in
    elim (Bool-cases (is_nil l)) [
      | inl a ↦ rw (recursive_insert, a) in_left
      | inr a ↦ elim (Bool-cases (is_nil r)) [
        | inl b ↦ rw (recursive_insert, a, b) in_right
        | inr b ↦ elim (Bool-cases (leb (count_of l) (count_of r))) [
          | inl d ↦ rw (recursive_insert, a, b, d) in_left
          | inr d ↦ rw (recursive_insert, a, b, d) in_right
        ]
      ]
    ]

pub sub-of_le : (x y : Currency) → y ≤ x → sub x y ≡ x - y
unfolding sub
sub-of_le x y h = let e : ltb x y ≡ false = ground arith in rw e refl

pub take_off-IsWeighted :
    (p : Place) (n : Node) (e : HostEntry)
    → IsWeighted n
    → taken_at p n ≡ some e
    → IsWeighted (take_off p e.weight n)
      × (weight_of (take_off p e.weight n) + e.weight ≡ weight_of n)
      × (count_of (take_off p e.weight n) ≡ count_of n)
unfolding take_off
take_off-IsWeighted p nil e h there = absurd (ground arith)
take_off-IsWeighted [] (node l r c false w e') e h there = absurd (ground arith)
take_off-IsWeighted [] (node l r c true w none) e h there = absurd (ground arith)
take_off-IsWeighted [] (node l r c true w (some e')) e (hw, hc, he, hl, hr) there =
    let same : e'.weight ≡ e.weight = ap HostEntry.weight (some-injective _ _ there) in
    let s = sub-of_le w e.weight (omega arith) in
    ((s ∙ omega arith, hc, tt, hl, hr), omega (arith, s), refl)
take_off-IsWeighted (to_left ∷ p) (node l r c t w e') e (hw, hc, he, hl, hr) there =
    let (il, wl, cl) = take_off-IsWeighted p l e hl there in
    let s = sub-of_le w e.weight (omega arith) in
    ((s ∙ omega arith, omega arith, he, il, hr), omega (arith, s), refl)
take_off-IsWeighted (to_right ∷ p) (node l r c t w e') e (hw, hc, he, hl, hr) there =
    let (ir, wr, cr) = take_off-IsWeighted p r e hr there in
    let s = sub-of_le w e.weight (omega arith) in
    ((s ∙ omega arith, omega arith, he, hl, ir), omega (arith, s), refl)
