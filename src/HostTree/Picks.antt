-- ===== src/HostTree/Picks.antt =====
-- modules/renter/hostdb/hosttree/hosttree.go: which host a weight picks.
use sia_prime.Prelude.{
  ltb, if◌then◌else◌, ltb→lt, Bool-cases, sum_of, sum_of-append, ℕ, ◌+◌, ◌-◌, ◌≤◌, ◌<◌, ◌≡◌, refl,
  sym, ap, ◌∙◌, inl, inr, Bool, true, false, Option, none, some, List, [], ◌∷◌, ◌++◌, arith,
}
use sia_prime.Types.Data.{Currency}
use sia_prime.Types.Currency.{sub}
use sia_prime.HostTree.Tree.{
  HostEntry, Node, nil, node, to_left, to_right, Place, weight_of, node_at_weight,
}
use sia_prime.HostTree.Weights.{own_weight, HasEntry, IsWeighted, if_taken, taken_at, sub-of_le}

-- The taken nodes, those on the left first, then those on the right, then the node itself.
abbrev pub own_entry : Bool → Option HostEntry → List HostEntry
own_entry true (some e) = e ∷ []
own_entry true none = []
own_entry false e = []

unfoldable pub taken_entries : Node → List HostEntry
taken_entries nil = []
taken_entries (node l r c t w e) = taken_entries l ++ (taken_entries r ++ own_entry t e)

-- The entry of a list in whose share of the total weight a number lies.
unfoldable pub pick : Currency → List HostEntry → Option HostEntry
pick x [] = none
pick x (e ∷ es) = let rest = pick (x - e.weight) es in if ltb x e.weight then some e else rest

abbrev total : List HostEntry → Currency
total es = sum_of HostEntry.weight es

pick-append :
    (x : Currency) (es fs : List HostEntry)
    → pick x (es ++ fs) ≡ (if ltb x (total es) then pick x es else pick (x - total es) fs)
unfolding pick
pick-append x [] fs = ground arith
pick-append x (e ∷ es) fs =
    let ih = pick-append (x - e.weight) es fs in
    elim (Bool-cases (ltb x e.weight)) [
      | inl a ↦ let b : ltb x (e.weight + total es) ≡ true = ground arith in rw (pick, a, b) refl
      | inr a ↦
          let q : ltb x (e.weight + total es) ≡ ltb (x - e.weight) (total es) = ground arith in
          let d : x - (e.weight + total es) ≡ x - e.weight - total es = omega arith in
          rw (pick, a, q, d) ih
    ]

total-own : (t : Bool) (e : Option HostEntry) → total (own_entry t e) ≡ own_weight t e
total-own true (some e) = omega arith
total-own true none = refl
total-own false e = refl

-- What is left when the children's weights are passed is the node's own.
own-left :
    (t : Bool) (e : Option HostEntry) (x : Currency)
    → HasEntry t e
    → x < own_weight t e
    → (e' : HostEntry) × (t ≡ true) × (if_taken t e ≡ some e') × (pick x (own_entry t e) ≡ some e')
unfolding pick
own-left true (some e) x h lt =
    let a : ltb x e.weight ≡ true = ground arith in (e, refl, refl, rw (pick, a) refl)
own-left true none x h lt = elim h [ ]
own-left false e x h lt = absurd (omega arith)

pub total-taken_entries : (n : Node) → IsWeighted n → total (taken_entries n) ≡ weight_of n
unfolding taken_entries
total-taken_entries nil h = refl
total-taken_entries (node l r c t w e) (hw, hc, he, hl, hr) =
    let a = sum_of-append HostEntry.weight (taken_entries l) (taken_entries r ++ own_entry t e) in
    let b = sum_of-append HostEntry.weight (taken_entries r) (own_entry t e) in
    let o = total-own t e in
    let tl = total-taken_entries l hl in let tr = total-taken_entries r hr in omega arith

-- Both children, and then the node, by what is left of the weight.
pick-node :
    (x : Currency) (l r : Node) (c : ℕ) (t : Bool) (w : Currency) (e : Option HostEntry)
    → IsWeighted l
    → IsWeighted r
    → pick x (taken_entries (node l r c t w e)) ≡ (
        if ltb x (weight_of l)
        then pick x (taken_entries l)
        else (if ltb (x - weight_of l) (weight_of r)
            then pick (x - weight_of l) (taken_entries r)
            else pick (x - weight_of l - weight_of r) (own_entry t e)))
unfolding taken_entries
pick-node x l r c t w e hl hr =
    let tl = total-taken_entries l hl in
    let tr = total-taken_entries r hr in
    rw (sym tl, sym tr)
      (pick-append x (taken_entries l) (taken_entries r ++ own_entry t e)
        ∙ ap (λ q. if ltb x (total (taken_entries l)) then pick x (taken_entries l) else q)
            (pick-append (x - total (taken_entries l)) (taken_entries r) (own_entry t e)))

lt→not-ltb : (x w : ℕ) → x < w → ltb w x ≡ false
lt→not-ltb x w h = ground arith

pub ltb_false→le : (x y : ℕ) → ltb x y ≡ false → y ≤ x
ltb_false→le x y h = ground arith

sub-zero_or : (x y : Currency) → ltb x y ≡ false → sub x y ≡ x - y
sub-zero_or x y h = sub-of_le x y (ltb_false→le x y h)

-- A weight below the tree's has a node, which is taken, and its host is the one in whose share the
-- weight lies.
pub node_at_weight-pick :
    (x : Currency) (n : Node)
    → IsWeighted n
    → x < weight_of n
    → (p : Place) × (e : HostEntry) × (node_at_weight x n ≡ some p)
      × (taken_at p n ≡ some e)
      × (pick x (taken_entries n) ≡ some e)
unfolding node_at_weight
node_at_weight-pick x nil h lt = absurd (omega arith)
node_at_weight-pick x (node l r c t w e) (hw, hc, he, hl, hr) lt =
    let picked = pick-node x l r c t w e hl hr in
    let fits : ltb w x ≡ false = lt→not-ltb x w lt in
    elim (Bool-cases (ltb x (weight_of l))) [
      | inl a ↦
          let (p, e', at, there, pk) = node_at_weight-pick x l hl (ltb→lt _ _ a) in
          (to_left ∷ p, e', rw (node_at_weight, fits, a, at) refl, there, picked ∙ rw a pk)
      | inr a ↦
          let s = sub-zero_or x (weight_of l) a in
          elim (Bool-cases (ltb (x - weight_of l) (weight_of r))) [
            | inl b ↦
                let (p, e', at, there, pk) =
                  node_at_weight-pick (x - weight_of l) r hr (ltb→lt _ _ b) in
                (
                  to_right ∷ p,
                  e',
                  rw (node_at_weight, fits, a, s, b, at) refl,
                  there,
                  picked ∙ rw (a, b) pk,
                )
            | inr b ↦
                let past_left = ltb_false→le x (weight_of l) a in
                let past_right = ltb_false→le (x - weight_of l) (weight_of r) b in
                let (e', taken, own, left) =
                  own-left t e (x - weight_of l - weight_of r) he (omega arith) in
                (
                  [],
                  e',
                  rw (node_at_weight, fits, a, s, b, taken) refl,
                  own,
                  picked ∙ rw (a, b) left,
                )
          ]
    ]
