-- ===== src/HostTree/Places.antt =====
-- modules/renter/hostdb/hosttree/hosttree.go: insertion and removal leave every other node's place and
-- entry as they are, so the pointers to nodes stay good.
use sia_prime.Prelude.{
  leb, if◌then◌else◌, Bool-cases, ℕ, ◌+◌, ◌≡◌, refl, ap, inl, inr, Bool, true, false, Option, none,
  some, [], ◌∷◌, arith,
}
use sia_prime.Types.Currency.{add}
use sia_prime.HostTree.Tree.{
  HostEntry, Node, nil, node, to_left, to_right, Place, is_nil, count_of, create_node, Inserted,
  insert_left, insert_right, recursive_insert, insert_at_root, take_off,
}
use sia_prime.HostTree.Weights.{IsWeighted, taken_at, recursive_insert-IsWeighted}

abbrev pub same_place : Place → Place → Bool
same_place [] [] = true
same_place [] (s ∷ q) = false
same_place (s ∷ p) [] = false
same_place (to_left ∷ p) (to_left ∷ q) = same_place p q
same_place (to_left ∷ p) (to_right ∷ q) = false
same_place (to_right ∷ p) (to_left ∷ q) = false
same_place (to_right ∷ p) (to_right ∷ q) = same_place p q

pub same_place_refl : (p : Place) → same_place p p ≡ true
same_place_refl [] = refl
same_place_refl (to_left ∷ p) = same_place_refl p
same_place_refl (to_right ∷ p) = same_place_refl p

pub same_place→eq : (p q : Place) → same_place p q ≡ true → p ≡ q
same_place→eq [] [] h = refl
same_place→eq [] (s ∷ q) h = absurd (ground arith)
same_place→eq (s ∷ p) [] h = absurd (ground arith)
same_place→eq (to_left ∷ p) (to_left ∷ q) h = ap (λ t. to_left ∷ t) (same_place→eq p q h)
same_place→eq (to_left ∷ p) (to_right ∷ q) h = absurd (ground arith)
same_place→eq (to_right ∷ p) (to_left ∷ q) h = absurd (ground arith)
same_place→eq (to_right ∷ p) (to_right ∷ q) h = ap (λ t. to_right ∷ t) (same_place→eq p q h)

-- The new node was not taken, and it is the only one that changes.
abbrev pub InsertsAt : HostEntry → Node → Inserted → Type 0
InsertsAt new n i =
    (taken_at i.new_node n ≡ none)
    × ((q : Place)
        → taken_at q i.tree ≡ (if same_place q i.new_node then some new else taken_at q n))

left-places :
    (new : HostEntry) (l l' r : Node) (c c' w w' : ℕ) (e : Option HostEntry) (p : Place)
    → ((q : Place) → taken_at q l' ≡ (if same_place q p then some new else taken_at q l))
    → (q : Place)
    → taken_at q (node l' r c' true w' e)
      ≡ (if same_place q (to_left ∷ p) then some new else taken_at q (node l r c true w e))
left-places new l l' r c c' w w' e p other [] = refl
left-places new l l' r c c' w w' e p other (to_left ∷ q) = other q
left-places new l l' r c c' w w' e p other (to_right ∷ q) = refl

right-places :
    (new : HostEntry) (l r r' : Node) (c c' w w' : ℕ) (e : Option HostEntry) (p : Place)
    → ((q : Place) → taken_at q r' ≡ (if same_place q p then some new else taken_at q r))
    → (q : Place)
    → taken_at q (node l r' c' true w' e)
      ≡ (if same_place q (to_right ∷ p) then some new else taken_at q (node l r c true w e))
right-places new l r r' c c' w w' e p other [] = refl
right-places new l r r' c c' w w' e p other (to_left ∷ q) = refl
right-places new l r r' c c' w w' e p other (to_right ∷ q) = other q

insert_left-places :
    (new : HostEntry) (l r : Node) (c : ℕ) (w w' : ℕ) (e : Option HostEntry) (i : Inserted)
    → InsertsAt new l i
    → InsertsAt new (node l r c true w e) (insert_left r c w' e i)
unfolding insert_left
insert_left-places new l r c w w' e i (fresh, other) =
    (fresh, left-places new l i.tree r c (c + i.nodes_added) w w' e i.new_node other)

insert_right-places :
    (new : HostEntry) (l r : Node) (c : ℕ) (w w' : ℕ) (e : Option HostEntry) (i : Inserted)
    → InsertsAt new r i
    → InsertsAt new (node l r c true w e) (insert_right l c w' e i)
unfolding insert_right
insert_right-places new l r c w w' e i (fresh, other) =
    (fresh, right-places new l r i.tree c (c + i.nodes_added) w w' e i.new_node other)

leaf-places :
    (new : HostEntry) (q : Place)
    → taken_at q (node nil nil 1 true new.weight (some new))
      ≡ (if same_place q [] then some new else none)
leaf-places new [] = refl
leaf-places new (to_left ∷ q) = refl
leaf-places new (to_right ∷ q) = refl

free-places :
    (new : HostEntry) (l r : Node) (c : ℕ) (w w' : ℕ) (e : Option HostEntry) (q : Place)
    → taken_at q (node l r c true w' (some new))
      ≡ (if same_place q [] then some new else taken_at q (node l r c false w e))
free-places new l r c w w' e [] = refl
free-places new l r c w w' e (to_left ∷ q) = refl
free-places new l r c w w' e (to_right ∷ q) = refl

pub recursive_insert-places :
    (new : HostEntry) (n : Node) → InsertsAt new n (recursive_insert new n)
unfolding recursive_insert create_node
recursive_insert-places new nil = (refl, leaf-places new)
recursive_insert-places new (node l r c false w e) =
    (refl, free-places new l r c w (add w new.weight) e)
recursive_insert-places new (node l r c true w e) =
    let in_left =
      insert_left-places new l r c w (add w new.weight) e _ (recursive_insert-places new l) in
    let in_right =
      insert_right-places new l r c w (add w new.weight) e _ (recursive_insert-places new r) in
    elim (Bool-cases (is_nil l)) [
      | inl a ↦ rw (recursive_insert, a) in_left
      | inr a ↦ elim (Bool-cases (is_nil r)) [
        | inl b ↦ rw (recursive_insert, a, b) in_right
        | inr b ↦ elim (Bool-cases (leb (count_of l) (count_of r))) [
          | inl d ↦ rw (recursive_insert, a, b, d) in_left
          | inr d ↦ rw (recursive_insert, a, b, d) in_right
        ]
      ]
    ]

pub insert_at_root-places : (new : HostEntry) (n : Node) → InsertsAt new n (insert_at_root new n)
unfolding insert_at_root
insert_at_root-places new (node nil nil c false w e) =
    (refl, free-places new nil nil c w new.weight e)
insert_at_root-places new nil = recursive_insert-places new nil
insert_at_root-places new (node nil nil c true w e) =
    recursive_insert-places new (node nil nil c true w e)
insert_at_root-places new (node nil (node l r c' t' w' e') c t w e) =
    recursive_insert-places new (node nil (node l r c' t' w' e') c t w e)
insert_at_root-places new (node (node l r c' t' w' e') n c t w e) =
    recursive_insert-places new (node (node l r c' t' w' e') n c t w e)

-- At the root, a node without children and not taken has no weight of its own, so it makes no
-- difference that the weight is replaced.
pub insert_at_root-IsWeighted :
    (new : HostEntry) (n : Node) → IsWeighted n → IsWeighted (insert_at_root new n).tree
unfolding insert_at_root
insert_at_root-IsWeighted new (node nil nil c false w e) (hw, hc, _, _, _) =
    (omega arith, hc, tt, tt, tt)
insert_at_root-IsWeighted new nil h = (recursive_insert-IsWeighted new nil h).0
insert_at_root-IsWeighted new (node nil nil c true w e) h =
    (recursive_insert-IsWeighted new (node nil nil c true w e) h).0
insert_at_root-IsWeighted new (node nil (node l r c' t' w' e') c t w e) h =
    (recursive_insert-IsWeighted new (node nil (node l r c' t' w' e') c t w e) h).0
insert_at_root-IsWeighted new (node (node l r c' t' w' e') n c t w e) h =
    (recursive_insert-IsWeighted new (node (node l r c' t' w' e') n c t w e) h).0

-- To take a node off leaves all others as they are.
pub take_off-places :
    (p : Place) (x : ℕ) (n : Node) (e : HostEntry)
    → taken_at p n ≡ some e
    → (q : Place) → taken_at q (take_off p x n) ≡ (if same_place q p then none else taken_at q n)
unfolding take_off
take_off-places p x nil e h q = absurd (ground arith)
take_off-places [] x (node l r c t w e') e h [] = refl
take_off-places [] x (node l r c t w e') e h (to_left ∷ q) = refl
take_off-places [] x (node l r c t w e') e h (to_right ∷ q) = refl
take_off-places (to_left ∷ p) x (node l r c t w e') e h [] = refl
take_off-places (to_left ∷ p) x (node l r c t w e') e h (to_left ∷ q) = take_off-places p x l e h q
take_off-places (to_left ∷ p) x (node l r c t w e') e h (to_right ∷ q) = refl
take_off-places (to_right ∷ p) x (node l r c t w e') e h [] = refl
take_off-places (to_right ∷ p) x (node l r c t w e') e h (to_left ∷ q) = refl
take_off-places (to_right ∷ p) x (node l r c t w e') e h (to_right ∷ q) =
    take_off-places p x r e h q
