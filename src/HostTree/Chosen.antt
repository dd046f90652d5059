-- ===== src/HostTree/Chosen.antt =====
-- modules/renter/hostdb/hosttree/hosttree.go: the state between two draws of `SelectRandom`.
use sia_prime.Prelude.{
  ◌==◌, if◌then◌else◌, ==→eq, Bool-cases, length, All, length-append, All-append, All-map, ℕ, suc,
  ◌≤◌, ◌<◌, ◌≡◌, refl, sym, ap, ◌∙◌, ◌≢◌, inl, inr, Bool, true, false, not, ◌&&◌, Option, none,
  some, List, [], ◌∷◌, ◌++◌, arith,
}
use sia_prime.Consensus.Panic.{none-some, ==-refl}
use sia_prime.HostTree.Tree.{HostDbEntry, HostEntry, key_of, Place}
use sia_prime.HostTree.Hosts.{HostTree, find, unset}
use sia_prime.HostTree.Good.{held}
use sia_prime.HostTree.Select.{
  Outside, contains, filtered, last_succeeded, is_empty, Drawing, acceptable,
}
use sia_prime.HostTree.Parts.{held_in, first_of, Parts}

pub unset-le : (k : ℕ) (m : List (ℕ × Place)) → length (unset k m) ≤ length m
unfolding unset
unset-le k [] = omega arith
unset-le k ((j, p) ∷ m) =
    let ih = unset-le k m in
    elim (Bool-cases (k == j)) [
      | inl a ↦ rw (unset, a) (omega arith)
      | inr a ↦ rw (unset, a) (omega arith)
    ]

pub unset-shorter :
    (k : ℕ) (p : Place) (m : List (ℕ × Place))
    → find k m ≡ some p
    → suc (length (unset k m)) ≤ length m
unfolding find unset
unset-shorter k p [] h = none-some p h
unset-shorter k p ((j, q) ∷ m) h = elim (Bool-cases (k == j)) [
  | inl a ↦ let le = unset-le k m in rw (unset, a) (omega arith)
  | inr a ↦ let ih = unset-shorter k p m (rw (find, a) at h) in rw (unset, a) (omega arith)
]

-- No two hosts have the same key.
abbrev pub NoRepeats : List HostDbEntry → Type 0
NoRepeats [] = Unit
NoRepeats (h ∷ hs) = All (λ h'. (h.public_key == h'.public_key) ≡ false) hs × NoRepeats hs

pub NoRepeats-snoc :
    (hs : List HostDbEntry) (h : HostDbEntry)
    → NoRepeats hs
    → All (λ h'. (h'.public_key == h.public_key) ≡ false) hs
    → NoRepeats (hs ++ (h ∷ []))
NoRepeats-snoc [] h d a = (tt, tt)
NoRepeats-snoc (x ∷ hs) h (d, ds) (a, as') =
    (All-append _ hs (h ∷ []) d (a, tt), NoRepeats-snoc hs h ds as')

-- The bound is kept when a host is chosen below it.
pub length-snoc-le :
    (hs : List HostDbEntry) (h : HostDbEntry) (n : ℕ) (b : Bool)
    → length hs < n
    → length (if b then hs ++ (h ∷ []) else hs) ≤ n
length-snoc-le hs h n true lt = let l = length-append hs (h ∷ []) in omega arith
length-snoc-le hs h n false lt = omega arith

pub and-true : (a b c : Bool) → (a && b && c) ≡ true → (a ≡ true) × (b ≡ true) × (c ≡ true)
and-true true true true h = (refl, refl, refl)
and-true true true false h = absurd (ground arith)
and-true true false c h = absurd (ground arith)
and-true false b c h = absurd (ground arith)

pub first-none-left : (a b : Option HostEntry) → first_of a b ≡ none → a ≡ none
first-none-left none b h = refl
first-none-left (some e) b h = none-some e (sym h)

pub first-none-right : (a b : Option HostEntry) → first_of a b ≡ none → b ≡ none
first-none-right none b h = h
first-none-right (some e) b h = none-some e (sym h)

pub pos→not-zero : (w : ℕ) → 0 < w → (w == 0) ≡ false
pos→not-zero w h = ground arith

pub no-hosts : (m : List (ℕ × Place)) → length m ≤ 0 → is_empty m ≡ true
no-hosts [] h = refl
no-hosts (x ∷ m) h = absurd (omega arith)

pub some-host :
    (m : List (ℕ × Place)) → is_empty m ≡ false → (k : ℕ) × (p : Place) × (find k m ≡ some p)
unfolding find
some-host [] h = absurd (ground arith)
some-host ((k, p) ∷ m) h = (k, p, rw (find, ==-refl k) refl)

-- The weight of every host that is held is positive.
abbrev pub PositiveWeights : HostTree → Type 0
PositiveWeights ht = (k : ℕ) (e : HostEntry) → held k ht ≡ some e → 0 < e.weight

module _ (outside : Outside) (whole : HostTree) (n : ℕ) (blacklist : List ℕ) where
  -- A host of the tree, not on the blacklist, that accepts contracts and was online when last scanned.
  abbrev pub Chosen : HostDbEntry → Type 0
  Chosen h =
      (h.accepting_contracts ≡ true)
      × (last_succeeded h.scan_history ≡ true)
      × (contains h.public_key blacklist ≡ false)
      × ((e : HostEntry) × (held h.public_key whole ≡ some e) × (e.host ≡ h))

  pub record IsDrawn (d : Drawing) : Type 0 where
    pub parts : Parts whole d.tree d.removed
    pub bound : length d.chosen ≤ n
    pub all_chosen : All Chosen d.chosen
    pub banned : (k : ℕ) → contains k blacklist ≡ true → held k d.tree ≡ none
    pub seen : All (λ h. held_in h.public_key d.removed ≢ none) d.chosen
    pub no_repeats : NoRepeats d.chosen

  pub held-whole :
      (d : Drawing) (k : ℕ) (e : HostEntry)
      → Parts whole d.tree d.removed
      → held k d.tree ≡ some e
      → held k whole ≡ some e
  held-whole d k e parts h = parts.together k ∙ rw (parts.apart k e h) h

  -- The host of a round that is acceptable is a new one.
  pub new-Chosen :
      (d : Drawing) (e : HostEntry)
      → IsDrawn d
      → held (key_of e) d.tree ≡ some e
      → acceptable outside e.host d.filter ≡ true
      → Chosen e.host
  new-Chosen d e i holds ok =
      let h = e.host in
      let (x, y, _) =
        and-true h.accepting_contracts (last_succeeded h.scan_history)
          (not (filtered outside h.net_address d.filter)) ok in
      (
        x,
        y,
        elim (Bool-cases (contains (key_of e) blacklist)) [
          | inr b ↦ b
          | inl b ↦ none-some e (sym (i.banned (key_of e) b) ∙ holds)
        ],
        (e, held-whole d (key_of e) e i.parts holds, refl),
      )

  pub new-distinct :
      (d : Drawing) (e : HostEntry)
      → IsDrawn d
      → held (key_of e) d.tree ≡ some e
      → All (λ h'. (h'.public_key == key_of e) ≡ false) d.chosen
  new-distinct d e i holds =
      All-map _
        (λ h' seen. elim (Bool-cases (h'.public_key == key_of e)) [
          | inr b ↦ b
          | inl b ↦ absurd (
              seen (
                ap (λ x. held_in x d.removed) (==→eq h'.public_key (key_of e) b)
                ∙ i.parts.apart (key_of e) e holds))
        ])
        d.chosen i.seen
