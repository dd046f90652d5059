-- ===== src/HostTree/Drawn.antt =====
-- modules/renter/hostdb/hosttree/hosttree.go: what `SelectRandom` draws, and that it leaves the tree as
-- it was.
use sia_prime.Prelude.{
  ltb, ◌==◌, if◌then◌else◌, ltb→lt, Bool-cases, length, All, All-append, All-map, ℕ, zero, suc, ◌+◌,
  ◌≤◌, ◌<◌, ◌≡◌, refl, sym, ap, ◌∙◌, subst, ◌≢◌, ◌⊎◌, inl, inr, Bool, true, false, none, some, List,
  [], ◌∷◌, ◌++◌, arith,
}
use sia_prime.Consensus.Panic.{none-some, ==-refl}
use sia_prime.HostTree.Tree.{HostEntry, key_of, Place, weight_of, take_off}
use sia_prime.HostTree.Weights.{taken_at, take_off-IsWeighted}
use sia_prime.HostTree.Picks.{ltb_false→le, node_at_weight-pick}
use sia_prime.HostTree.Draws.{taken_at-entry_at}
use sia_prime.HostTree.Hosts.{HostTree, find, unset}
use sia_prime.HostTree.Good.{taken_there, held, drop_entry-runs, dropped-held}
use sia_prime.HostTree.Select.{
  Outside, filter_add, is_empty, Drawing, acceptable, draw_host, draw_hosts,
}
use sia_prime.HostTree.Parts.{held_in, held_in-snoc, move-Parts, if-none}
use sia_prime.HostTree.Chosen.{
  unset-shorter, NoRepeats, NoRepeats-snoc, length-snoc-le, first-none-left, first-none-right,
  pos→not-zero, no-hosts, some-host, PositiveWeights, Chosen, IsDrawn, held-whole, new-Chosen,
  new-distinct,
}

module _ (outside : Outside) (whole : HostTree) (n : ℕ) (blacklist : List ℕ) where
  still-seen :
      (es : List HostEntry) (e : HostEntry) (k : ℕ)
      → held_in k es ≢ none
      → held_in k (es ++ (e ∷ [])) ≢ none
  still-seen es e k s h = s (first-none-left (held_in k es) _ (sym (held_in-snoc k es e) ∙ h))

  now-seen : (es : List HostEntry) (e : HostEntry) → held_in (key_of e) (es ++ (e ∷ [])) ≢ none
  now-seen es e h =
      let last : (if key_of e == key_of e then some e else none) ≡ none =
        first-none-right (held_in (key_of e) es) _ (sym (held_in-snoc (key_of e) es e) ∙ h) in
      none-some e (sym last ∙ rw (==-refl (key_of e)) refl)

  after_round : Drawing → Place → HostEntry → Drawing
  after_round d p e = record {
    tree = record d.tree {
      root = take_off p e.weight d.tree.root;
      hosts = unset (key_of e) d.tree.hosts;
    };
    filter =
        if acceptable outside e.host d.filter
        then filter_add outside e.host.net_address d.filter
        else d.filter;
    chosen = if acceptable outside e.host d.filter then d.chosen ++ (e.host ∷ []) else d.chosen;
    removed = d.removed ++ (e ∷ []);
  }

  after_round-IsDrawn :
      (d : Drawing) (p : Place) (e : HostEntry)
      → IsDrawn outside whole n blacklist d
      → length d.chosen < n
      → find (key_of e) d.tree.hosts ≡ some p
      → taken_at p d.tree.root ≡ some e
      → IsDrawn outside whole n blacklist (after_round d p e)
  unfolding after_round
  after_round-IsDrawn d p e i lt at here =
      let holds : held (key_of e) d.tree ≡ some e = ap (λ o. taken_there o d.tree.root) at ∙ here in
      let older = All-map _ (λ h s. still-seen d.removed e h.public_key s) d.chosen i.seen in
      let chosen = λ (b : Bool). if b then d.chosen ++ (e.host ∷ []) else d.chosen in
      let ok = acceptable outside e.host d.filter in
      record {
        parts = move-Parts whole d.tree d.removed p e i.parts at here;
        bound = length-snoc-le d.chosen e.host n ok lt;
        all_chosen = elim (Bool-cases ok) [
          | inr b ↦
              subst (λ t. All (Chosen outside whole n blacklist) (chosen t)) (sym b) i.all_chosen
          | inl b ↦
              subst (λ t. All (Chosen outside whole n blacklist) (chosen t)) (sym b)
                (All-append _ d.chosen (e.host ∷ []) i.all_chosen
                  (new-Chosen outside whole n blacklist d e i holds b, tt))
        ];
        banned = λ k b.
            dropped-held (key_of e) p e d.tree i.parts.consistent at here k
            ∙ if-none (k == key_of e) (held k d.tree) (i.banned k b);
        seen = elim (Bool-cases ok) [
          | inr b ↦
              subst (λ t. All (λ h. held_in h.public_key (d.removed ++ (e ∷ [])) ≢ none) (chosen t))
                (sym b) older
          | inl b ↦
              subst (λ t. All (λ h. held_in h.public_key (d.removed ++ (e ∷ [])) ≢ none) (chosen t))
                (sym b) (All-append _ d.chosen (e.host ∷ []) older (now-seen d.removed e, tt))
        ];
        no_repeats = elim (Bool-cases ok) [
          | inr b ↦ subst (λ t. NoRepeats (chosen t)) (sym b) i.no_repeats
          | inl b ↦
              subst (λ t. NoRepeats (chosen t)) (sym b)
                (NoRepeats-snoc d.chosen e.host i.no_repeats
                  (new-distinct outside whole n blacklist d e i holds))
        ];
      }

  draw_host-IsDrawn :
      (x : ℕ) (d : Drawing)
      → IsDrawn outside whole n blacklist d
      → length d.chosen < n
      → x < weight_of d.tree.root
      → (d' : Drawing) × (draw_host outside x d ≡ some d')
        × IsDrawn outside whole n blacklist d'
        × (suc (length d'.tree.hosts) ≤ length d.tree.hosts)
  unfolding draw_host after_round
  draw_host-IsDrawn x d i lt small =
      let c = i.parts.consistent in
      let (p, e, found, here, _) = node_at_weight-pick x d.tree.root c.weighted small in
      let at = c.registered p e here in
      (
        after_round d p e,
        rw found (
            rw (taken_at-entry_at p d.tree.root e here)
              (rw (drop_entry-runs (key_of e) p e d.tree c at here) refl)),
        after_round-IsDrawn d p e i lt at here,
        unset-shorter (key_of e) p d.tree.hosts at,
      )

  -- A tree with hosts of positive weights has a positive weight.
  some-weight :
      (d : Drawing)
      → IsDrawn outside whole n blacklist d
      → PositiveWeights whole
      → is_empty d.tree.hosts ≡ false
      → 0 < weight_of d.tree.root
  unfolding find
  some-weight d i positive filled =
      let c = i.parts.consistent in
      let (k, p, at) = some-host d.tree.hosts filled in
      let (e, here, key) = c.placed k p at in
      let holds : held k d.tree ≡ some e = ap (λ o. taken_there o d.tree.root) at ∙ here in
      let heavy = positive k e (held-whole outside whole n blacklist d k e i.parts holds) in
      let (_, off, _) = take_off-IsWeighted p d.tree.root e c.weighted here in omega arith

  -- With as many rounds as hosts, the draws end because enough are chosen or no host is left.
  pub draw_hosts-IsDrawn :
      (rounds i : ℕ) (d : Drawing)
      → IsDrawn outside whole n blacklist d
      → PositiveWeights whole
      → ((j b : ℕ) → 0 < b → outside.big_intn j b < b)
      → length d.tree.hosts ≤ rounds
      → (d' : Drawing) × (draw_hosts outside rounds n i d ≡ some d')
        × IsDrawn outside whole n blacklist d'
        × ((length d'.chosen ≡ n) ⊎ (is_empty d'.tree.hosts ≡ true))
  unfolding draw_hosts
  draw_hosts-IsDrawn zero i d inv positive random few =
      (d, refl, inv, inr (no-hosts d.tree.hosts few))
  draw_hosts-IsDrawn (suc rounds) i d inv positive random few =
      elim (Bool-cases (ltb (length d.chosen) n)) [
        | inr a ↦
            let enough : length d.chosen ≡ n =
              let le = inv.bound in let ge = ltb_false→le (length d.chosen) n a in omega arith in
            (d, rw (draw_hosts, a) refl, inv, inl enough)
        | inl a ↦ elim (Bool-cases (is_empty d.tree.hosts)) [
          | inl b ↦ (d, rw (draw_hosts, a, b) refl, inv, inr b)
          | inr b ↦
              let heavy = some-weight d inv positive b in
              let not_zero = pos→not-zero (weight_of d.tree.root) heavy in
              let (d1, run, inv1, fewer) =
                draw_host-IsDrawn (outside.big_intn i (weight_of d.tree.root)) d inv
                  (ltb→lt (length d.chosen) n a) (random i (weight_of d.tree.root) heavy) in
              let (d2, run2, inv2, ends) =
                draw_hosts-IsDrawn rounds (i + 1) d1 inv1 positive random (omega arith) in
              (d2, rw (draw_hosts, a, b, not_zero) (rw run run2), inv2, ends)
        ]
      ]
