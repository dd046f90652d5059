-- ===== src/HostTree/Parts.antt =====
-- modules/renter/hostdb/hosttree/hosttree.go: hosts that are taken out of the tree, remembered, and put
-- back.
use sia_prime.Prelude.{
  ◌==◌, if◌then◌else◌, ==→eq, Bool-cases, Option-cases, ℕ, ◌≡◌, refl, sym, ap, ◌∙◌, inl, inr, Bool,
  true, false, Option, none, some, List, [], ◌∷◌, ◌++◌, arith,
}
use sia_prime.Consensus.Panic.{none-some, ==-refl}
use sia_prime.HostTree.Tree.{HostEntry, key_of, Place}
use sia_prime.HostTree.Weights.{taken_at}
use sia_prime.HostTree.Draws.{taken_at-entry_at}
use sia_prime.HostTree.Hosts.{HostTree, find, put_entry, drop_entry, all}
use sia_prime.HostTree.Good.{
  IsConsistent, taken_there, held, dropped, drop_entry-runs, dropped-IsConsistent, dropped-held,
}
use sia_prime.HostTree.Map.{put-absent}
use sia_prime.HostTree.Select.{contains, take_out, put_back}

abbrev pub held_in : ℕ → List HostEntry → Option HostEntry
held_in k [] = none
held_in k (e ∷ es) = if k == key_of e then some e else held_in k es

abbrev pub first_of : Option HostEntry → Option HostEntry → Option HostEntry
first_of none o = o
first_of (some e) o = some e

abbrev pub Distinct : List HostEntry → Type 0
Distinct [] = Unit
Distinct (e ∷ es) = (held_in (key_of e) es ≡ none) × Distinct es

-- What was held is in the tree or among the removed entries, and never in both.
pub record Parts (whole : HostTree) (ht : HostTree) (removed : List HostEntry) : Type 0 where
  pub consistent : IsConsistent ht
  pub together : (k : ℕ) → held k whole ≡ first_of (held_in k removed) (held k ht)
  pub apart : (k : ℕ) (e : HostEntry) → held k ht ≡ some e → held_in k removed ≡ none
  pub distinct : Distinct removed

pub none-Parts : (ht : HostTree) → IsConsistent ht → Parts ht ht []
none-Parts ht c = record {
  consistent = c;
  together = λ k. refl;
  apart = λ k e h. refl;
  distinct = tt;
}

pub held_in-snoc :
    (k : ℕ) (es : List HostEntry) (e : HostEntry)
    → held_in k (es ++ (e ∷ [])) ≡ first_of (held_in k es) (if k == key_of e then some e else none)
held_in-snoc k [] e = refl
held_in-snoc k (x ∷ es) e = elim (Bool-cases (k == key_of x)) [
  | inl a ↦ rw a refl
  | inr a ↦ rw a (held_in-snoc k es e)
]

==-false-sym : (a b : ℕ) → (a == b) ≡ false → (b == a) ≡ false
==-false-sym a b h = ground arith

Distinct-snoc :
    (es : List HostEntry) (e : HostEntry)
    → Distinct es
    → held_in (key_of e) es ≡ none
    → Distinct (es ++ (e ∷ []))
Distinct-snoc [] e d h = (refl, tt)
Distinct-snoc (x ∷ es) e (fresh, d) h = elim (Bool-cases (key_of e == key_of x)) [
  | inl a ↦ none-some x (sym h ∙ rw a refl)
  | inr a ↦
      let rest : held_in (key_of e) es ≡ none = sym (rw a refl) ∙ h in
      (
        held_in-snoc (key_of x) es e ∙ (rw fresh (rw (==-false-sym (key_of e) (key_of x) a) refl)),
        Distinct-snoc es e d rest,
      )
]

first-none : (a b : Option HostEntry) → first_of a b ≡ first_of (first_of a none) b
first-none none b = refl
first-none (some e) b = refl

-- To move an entry from the tree to the removed ones.
pub move-Parts :
    (whole ht : HostTree) (removed : List HostEntry) (p : Place) (e : HostEntry)
    → (parts : Parts whole ht removed) → (at : find (key_of e) ht.hosts ≡ some p)
    → (here : taken_at p ht.root ≡ some e)
    → Parts whole (dropped (key_of e) p e ht parts.consistent at here) (removed ++ (e ∷ []))
move-Parts whole ht removed p e parts at here =
    let k = key_of e in
    let c = parts.consistent in
    let holds : held k ht ≡ some e = ap (λ o. taken_there o ht.root) at ∙ here in
    let free = parts.apart k e holds in
    let gone = dropped-held k p e ht c at here in
    record {
      consistent = dropped-IsConsistent k p e ht c at here;
      together = λ j. parts.together j ∙ elim (Bool-cases (j == k)) [
        | inl a ↦
            let j≡k = ==→eq j k a in
            let free_j : held_in j removed ≡ none = ap (λ x. held_in x removed) j≡k ∙ free in
            let holds_j : held j ht ≡ some e = ap (λ x. held x ht) j≡k ∙ holds in
            rw (held_in-snoc j removed e, free_j, a) holds_j
        | inr a ↦
            rw (held_in-snoc j removed e, gone j, a) (first-none (held_in j removed) (held j ht))
      ];
      apart = λ j e' h. elim (Bool-cases (j == k)) [
        | inl a ↦ none-some e' (sym (gone j ∙ rw a refl) ∙ h)
        | inr a ↦
            held_in-snoc j removed e
            ∙ (rw a (rw (parts.apart j e' (sym (gone j ∙ rw a refl) ∙ h)) refl))
      ];
      distinct = Distinct-snoc removed e parts.distinct free;
    }

-- To put the removed entries back gives the whole again.
pub put_back-whole :
    (es : List HostEntry) (ht : HostTree)
    → IsConsistent ht
    → Distinct es
    → ((k : ℕ) (e : HostEntry) → held k ht ≡ some e → held_in k es ≡ none)
    → IsConsistent (put_back es ht)
      × ((k : ℕ) → held k (put_back es ht) ≡ first_of (held_in k es) (held k ht))
unfolding put_back
put_back-whole [] ht c d apart = (c, λ k. refl)
put_back-whole (e ∷ es) ht c (fresh, d) apart =
    let absent : held (key_of e) ht ≡ none = elim (Option-cases (held (key_of e) ht)) [
      | inl a ↦ a
      | inr (e', a) ↦ none-some e (sym (apart (key_of e) e' a) ∙ rw (==-refl (key_of e)) refl)
    ] in
    let (c', one_more) = put-absent e ht c absent in
    let apart' : (k : ℕ) (e' : HostEntry)
        → held k (put_entry e ht) ≡ some e'
        → held_in k es ≡ none =
      λ k e' h. elim (Bool-cases (k == key_of e)) [
        | inl a ↦ ap (λ x. held_in x es) (==→eq k (key_of e) a) ∙ fresh
        | inr a ↦ sym (rw a refl) ∙ apart k e' (sym (one_more k ∙ rw a refl) ∙ h)
      ] in
    let (c'', all) = put_back-whole es (put_entry e ht) c' d apart' in
    (
      c'',
      λ k. all k ∙ elim (Bool-cases (k == key_of e)) [
        | inl a ↦
            let free : held_in k es ≡ none =
              ap (λ x. held_in x es) (==→eq k (key_of e) a) ∙ fresh in
            rw (free, a) (one_more k ∙ rw a refl)
        | inr a ↦ rw a (ap (first_of (held_in k es)) (one_more k ∙ rw a refl))
      ],
    )

pub if-none : (b : Bool) (o : Option HostEntry) → o ≡ none → (if b then none else o) ≡ none
if-none true o h = refl
if-none false o h = h

-- Taking hosts out never panics, keeps the parts, and leaves none of them in the tree.
pub take_out-Parts :
    (pks : List ℕ) (whole ht : HostTree) (removed : List HostEntry)
    → Parts whole ht removed
    → (out : HostTree × List HostEntry) × (take_out pks ht removed ≡ some out)
      × Parts whole (out.0) (out.1)
      × ((k : ℕ) → held k ht ≡ none → held k (out.0) ≡ none)
      × ((k : ℕ) → contains k pks ≡ true → held k (out.0) ≡ none)
unfolding take_out
take_out-Parts [] whole ht removed parts =
    ((ht, removed), refl, parts, λ k h. h, λ k h. absurd (ground arith))
take_out-Parts (pk ∷ pks) whole ht removed parts = elim (Option-cases (find pk ht.hosts)) [
  | inl a ↦
      let (out, run, parts', less, none_left) = take_out-Parts pks whole ht removed parts in
      let absent : held pk ht ≡ none = ap (λ o. taken_there o ht.root) a in
      (
        out,
        rw (take_out, a) run,
        parts',
        less,
        λ k h. elim (Bool-cases (k == pk)) [
          | inl b ↦
              let gone : held k ht ≡ none = ap (λ x. held x ht) (==→eq k pk b) ∙ absent in
              less k gone
          | inr b ↦ none_left k (rw b at h)
        ],
      )
  | inr (p, a) ↦
      let (e, here, key) = parts.consistent.placed pk p a in
      let at : find (key_of e) ht.hosts ≡ some p = ap (λ x. find x ht.hosts) key ∙ a in
      let c = parts.consistent in
      let gone = dropped-held (key_of e) p e ht c at here in
      let (out, run, parts', less, none_left) =
        take_out-Parts pks whole (dropped (key_of e) p e ht c at here) (removed ++ (e ∷ []))
          (move-Parts whole ht removed p e parts at here) in
      let run' : drop_entry pk p ht ≡ some (dropped (key_of e) p e ht c at here) =
        ap (λ x. drop_entry x p ht) (sym key) ∙ drop_entry-runs (key_of e) p e ht c at here in
      (
        out,
        rw (take_out, a) (rw (taken_at-entry_at p ht.root e here) (rw run' run)),
        parts',
        λ k h. less k (gone k ∙ if-none (k == key_of e) (held k ht) h),
        λ k h. elim (Bool-cases (k == pk)) [
          | inl b ↦ less k (gone k ∙ rw (ap (λ x. k == x) key ∙ b) refl)
          | inr b ↦ none_left k (rw b at h)
        ],
      )
]
