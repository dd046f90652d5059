-- ===== src/Consensus/Apply/Loops.antt =====
-- Loops with one more element, and what loops keep.
use sia_prime.Prelude.{
  All, ℕ, suc, ◌≡◌, refl, subst, Option, some, some-injective, List, [], ◌∷◌, ◌++◌,
}
use sia_prime.Consensus.Panic.{loop, try_loop, try_loop_from, bind-some}

module _ {D S : Type 0} where
  pub loop-snoc :
      (f : D → S → S) (ds : List D) (d : D) (s : S) → loop f (ds ++ (d ∷ [])) s ≡ f d (loop f ds s)
  loop-snoc f [] d s = refl
  loop-snoc f (x ∷ ds) d s = loop-snoc f ds d (f x s)

  pub try_loop-snoc :
      (f : D → S → Option S) (ds : List D) (d : D) (s s1 s2 : S)
      → try_loop f ds s ≡ some s1
      → f d s1 ≡ some s2
      → try_loop f (ds ++ (d ∷ [])) s ≡ some s2
  try_loop-snoc f [] d s s1 s2 h k = rw (some-injective _ _ h, k) refl
  try_loop-snoc f (x ∷ ds) d s s1 s2 h k =
      let (s', e, h') = bind-some (f x s) _ s1 h in rw e (try_loop-snoc f ds d s' s1 s2 h' k)

  -- What each turn keeps, a loop keeps.
  pub try_loop-keeps :
      (P : S → Type 0) (f : D → S → Option S)
      → ((d : D) (s s' : S) → P s → f d s ≡ some s' → P s')
      → (ds : List D) (s s' : S) → P s
      → try_loop f ds s ≡ some s'
      → P s'
  try_loop-keeps P f keeps [] s s' p h = subst P (some-injective _ _ h) p
  try_loop-keeps P f keeps (d ∷ ds) s s' p h =
      let (s1, e, h') = bind-some (f d s) _ s' h in
      try_loop-keeps P f keeps ds s1 s' (keeps d s s1 p e) h'

  pub try_loop_from-keeps :
      (P : S → Type 0) (f : ℕ → D → S → Option S)
      → ((i : ℕ) (d : D) (s s' : S) → P s → f i d s ≡ some s' → P s')
      → (i : ℕ) (ds : List D) (s s' : S) → P s
      → try_loop_from i f ds s ≡ some s'
      → P s'
  try_loop_from-keeps P f keeps i [] s s' p h = subst P (some-injective _ _ h) p
  try_loop_from-keeps P f keeps i (d ∷ ds) s s' p h =
      let (s1, e, h') = bind-some (f i d s) _ s' h in
      try_loop_from-keeps P f keeps (suc i) ds s1 s' (keeps i d s s1 p e) h'

  -- What each turn keeps on an element that is as `Q` says.
  pub try_loop-keeps_all :
      (P : S → Type 0) (Q : D → Type 0) (f : D → S → Option S)
      → ((d : D) (s s' : S) → Q d → P s → f d s ≡ some s' → P s')
      → (ds : List D) (s s' : S) → All Q ds
      → P s
      → try_loop f ds s ≡ some s'
      → P s'
  try_loop-keeps_all P Q f keeps [] s s' q p h = subst P (some-injective _ _ h) p
  try_loop-keeps_all P Q f keeps (d ∷ ds) s s' q p h =
      let (s1, e, h') = bind-some (f d s) _ s' h in
      try_loop-keeps_all P Q f keeps ds s1 s' (q.1) (keeps d s s1 (q.0) p e) h'
