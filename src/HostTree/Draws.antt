-- ===== src/HostTree/Draws.antt =====
-- modules/renter/hostdb/hosttree/hosttree.go: a weight that is drawn uniformly picks each host in
-- proportion to its weight.
use sia_prime.Prelude.{
  ltb, ◌==◌, if◌then◌else◌, sum_of, ℕ, zero, suc, ◌+◌, ◌-◌, ◌<◌, ◌≡◌, refl, sym, ap, ◌∙◌, Bool,
  true, false, Option, none, some, List, [], ◌∷◌, arith,
}
use sia_prime.HostTree.Tree.{
  HostEntry, key_of, Node, nil, node, to_left, to_right, Place, weight_of, node_at_weight, entry_at,
}
use sia_prime.HostTree.Weights.{IsWeighted, taken_at}
use sia_prime.HostTree.Picks.{taken_entries, pick, total-taken_entries, node_at_weight-pick}

-- How many numbers below a bound pass a test.
abbrev pub count_below : ℕ → (ℕ → Bool) → ℕ
count_below zero f = 0
count_below (suc n) f = (if f n then 1 else 0) + count_below n f

count_below-add :
    (a b : ℕ) (f : ℕ → Bool)
    → count_below (a + b) f ≡ count_below a f + count_below b (λ x. f (a + x))
count_below-add a zero f = let e : a + 0 ≡ a = omega arith in rw e (omega arith)
count_below-add a (suc b) f =
    let e : a + suc b ≡ suc (a + b) = omega arith in rw e (omega (arith, count_below-add a b f))

count_below-same :
    (n : ℕ) (f g : ℕ → Bool) → ((x : ℕ) → x < n → f x ≡ g x) → count_below n f ≡ count_below n g
count_below-same zero f g h = refl
count_below-same (suc n) f g h =
    rw (h n (omega arith))
      (ap (λ t. (if g n then 1 else 0) + t) (count_below-same n f g (λ x lt. h x (omega arith))))

count_below-constant : (n : ℕ) (b : Bool) → count_below n (λ x. b) ≡ (if b then n else 0)
count_below-constant zero true = refl
count_below-constant zero false = refl
count_below-constant (suc n) true = omega (arith, count_below-constant n true)
count_below-constant (suc n) false = omega (arith, count_below-constant n false)

abbrev pub has_key : ℕ → Option HostEntry → Bool
has_key k none = false
has_key k (some e) = key_of e == k

-- The weight of the hosts with a key.
abbrev pub weight_with_key : ℕ → List HostEntry → ℕ
weight_with_key k es = sum_of (λ e. if key_of e == k then e.weight else 0) es

pick-share :
    (k : ℕ) (es : List HostEntry)
    → count_below (sum_of HostEntry.weight es) (λ x. has_key k (pick x es)) ≡ weight_with_key k es
unfolding pick
pick-share k [] = refl
pick-share k (e ∷ es) =
    let w = e.weight in
    let rest = sum_of HostEntry.weight es in
    count_below-add w rest (λ x. has_key k (pick x (e ∷ es)))
    ∙ (ap (λ t. t + count_below rest (λ x. has_key k (pick (w + x) (e ∷ es))))
          (count_below-same w (λ x. has_key k (pick x (e ∷ es))) (λ x. key_of e == k)
              (λ x lt. let a : ltb x w ≡ true = ground arith in rw (pick, a) refl)
            ∙ count_below-constant w (key_of e == k))
        ∙ ap (λ t. (if key_of e == k then w else 0) + t)
            (count_below-same rest (λ x. has_key k (pick (w + x) (e ∷ es)))
                (λ x. has_key k (pick x es))
                (λ x lt.
                  let a : ltb (w + x) w ≡ false = ground arith in
                  let d : w + x - w ≡ x = omega arith in rw (pick, a, d) refl)
              ∙ pick-share k es))

pub taken_at-entry_at :
    (p : Place) (n : Node) (e : HostEntry) → taken_at p n ≡ some e → entry_at p n ≡ some e
unfolding entry_at
taken_at-entry_at p nil e h = h
taken_at-entry_at [] (node l r c true w e') e h = h
taken_at-entry_at [] (node l r c false w e') e h = absurd (ground arith)
taken_at-entry_at (to_left ∷ p) (node l r c t w e') e h = taken_at-entry_at p l e h
taken_at-entry_at (to_right ∷ p) (node l r c t w e') e h = taken_at-entry_at p r e h

-- The entry of the node that a weight finds.
abbrev pub host_at : Option Place → Node → Option HostEntry
host_at none n = none
host_at (some p) n = entry_at p n

-- Does a weight draw a host with the key?
abbrev pub draws_key : ℕ → Node → ℕ → Bool
draws_key k n x = has_key k (host_at (node_at_weight x n) n)

-- Among the weights below the tree's, exactly as many draw a host with a given key as the taken hosts
-- with that key weigh together.
pub draws-proportional :
    (k : ℕ) (n : Node)
    → IsWeighted n
    → count_below (weight_of n) (draws_key k n) ≡ weight_with_key k (taken_entries n)
draws-proportional k n h =
    let total = total-taken_entries n h in
    count_below-same (weight_of n) (draws_key k n) (λ x. has_key k (pick x (taken_entries n)))
      (λ x lt.
        let (p, e, at, there, pk) = node_at_weight-pick x n h lt in
        let entry = taken_at-entry_at p n e there in
        ap (λ o. has_key k (host_at o n)) at ∙ ap (has_key k) (entry ∙ sym pk))
    ∙ (ap (λ t. count_below t (λ x. has_key k (pick x (taken_entries n)))) (sym total)
        ∙ pick-share k (taken_entries n))
