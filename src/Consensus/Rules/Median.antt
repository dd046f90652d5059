-- ===== src/Consensus/Rules/Median.antt =====
-- modules/consensus/block_rules.go: the timestamp that a child needs is a median.
use sia_prime.Prelude.{
  leb, ◌==◌, if◌then◌else◌, leb→le, Bool-cases, length, get_elem?, All, ℕ, zero, suc, ◌+◌, ◌/◌, ◌≤◌,
  ◌<◌, ◌≡◌, refl, sym, ap, ◌∙◌, inl, inr, Bool, true, some, some-injective, List, [], ◌∷◌, arith,
}
use sia_prime.Types.Data.{Hash}
use sia_prime.Consensus.Bolt.{Bolt}
use sia_prime.Consensus.Data.{ProcessedBlock}
use sia_prime.Consensus.Panic.{bind-some}
use sia_prime.Consensus.Rules.{
  insert_timestamp, sort_timestamps, parent_times, window_times, minimum_valid_child_timestamp,
}

-- How many pass a test.
abbrev pub count : (ℕ → Bool) → List ℕ → ℕ
count p [] = 0
count p (x ∷ xs) = (if p x then 1 else 0) + count p xs

abbrev Sorted : List ℕ → Type 0
Sorted [] = Unit
Sorted (x ∷ xs) = All (λ y. x ≤ y) xs × Sorted xs

count-insert :
    (p : ℕ → Bool) (t : ℕ) (us : List ℕ) → count p (insert_timestamp t us) ≡ count p (t ∷ us)
unfolding insert_timestamp
count-insert p t [] = refl
count-insert p t (u ∷ us) = elim (Bool-cases (leb t u)) [
  | inl e ↦ rw (insert_timestamp, e) refl
  | inr e ↦ rw (insert_timestamp, e) (omega (arith, count-insert p t us))
]

pub count-sort : (p : ℕ → Bool) (ts : List ℕ) → count p (sort_timestamps ts) ≡ count p ts
unfolding sort_timestamps
count-sort p [] = refl
count-sort p (t ∷ ts) = count-insert p t (sort_timestamps ts) ∙ omega (arith, count-sort p ts)

length-insert : (t : ℕ) (us : List ℕ) → length (insert_timestamp t us) ≡ suc (length us)
unfolding insert_timestamp
length-insert t [] = refl
length-insert t (u ∷ us) = elim (Bool-cases (leb t u)) [
  | inl e ↦ rw (insert_timestamp, e) refl
  | inr e ↦ rw (insert_timestamp, e) (ap suc (length-insert t us))
]

pub length-sort : (ts : List ℕ) → length (sort_timestamps ts) ≡ length ts
unfolding sort_timestamps
length-sort [] = refl
length-sort (t ∷ ts) = length-insert t (sort_timestamps ts) ∙ ap suc (length-sort ts)

All-weaken : (x t : ℕ) (us : List ℕ) → t ≤ x → All (λ y. x ≤ y) us → All (λ y. t ≤ y) us
All-weaken x t [] h a = tt
All-weaken x t (u ∷ us) h (b, a) = (omega arith, All-weaken x t us h a)

All-insert :
    (x t : ℕ) (us : List ℕ) → x ≤ t → All (λ y. x ≤ y) us → All (λ y. x ≤ y) (insert_timestamp t us)
unfolding insert_timestamp
All-insert x t [] h a = (h, tt)
All-insert x t (u ∷ us) h (b, a) = elim (Bool-cases (leb t u)) [
  | inl e ↦ rw (insert_timestamp, e) (h, (b, a))
  | inr e ↦ rw (insert_timestamp, e) (b, All-insert x t us h a)
]

insert-Sorted : (t : ℕ) (us : List ℕ) → Sorted us → Sorted (insert_timestamp t us)
unfolding insert_timestamp
insert-Sorted t [] s = (tt, tt)
insert-Sorted t (u ∷ us) (a, s) = elim (Bool-cases (leb t u)) [
  | inl e ↦ let h = leb→le t u e in rw (insert_timestamp, e) ((h, All-weaken u t us h a), (a, s))
  | inr e ↦
      let h : u ≤ t = ground arith in
      rw (insert_timestamp, e) (All-insert u t us h a, insert-Sorted t us s)
]

sort-Sorted : (ts : List ℕ) → Sorted (sort_timestamps ts)
unfolding sort_timestamps
sort-Sorted [] = tt
sort-Sorted (t ∷ ts) = insert-Sorted t (sort_timestamps ts) (sort-Sorted ts)

count-All : (m : ℕ) (us : List ℕ) → All (λ y. m ≤ y) us → count (λ y. leb m y) us ≡ length us
count-All m [] a = refl
count-All m (u ∷ us) (h, a) =
    let e : leb m u ≡ true = ground arith in rw e (omega (arith, count-All m us a))

mem-bound : (x m i : ℕ) (us : List ℕ) → All (λ y. x ≤ y) us → get_elem? us i ≡ some m → x ≤ m
mem-bound x m i [] a h = absurd (ground arith)
mem-bound x m zero (u ∷ us) (b, a) h = let e = some-injective u m h in omega arith
mem-bound x m (suc i) (u ∷ us) (b, a) h = mem-bound x m i us a h

-- At least i + 1 entries are at most the one at i, and as many as follow it, and itself, at least.
pub rank :
    (i m : ℕ) (us : List ℕ)
    → Sorted us
    → get_elem? us i ≡ some m
    → (i + 1 ≤ count (λ y. leb y m) us) × (length us ≤ count (λ y. leb m y) us + i)
rank i m [] s h = absurd (ground arith)
rank zero m (u ∷ us) (a, s) h =
    let e = some-injective u m h in
    let all = count-All m us (rw e at a) in
    let l : leb u m ≡ true = ground arith in
    let g : leb m u ≡ true = ground arith in rw (l, g) (omega arith, omega arith)
rank (suc i) m (u ∷ us) (a, s) h =
    let (l, g) = rank i m us s h in
    let b = mem-bound u m i us a h in
    let e : leb u m ≡ true = ground arith in (rw e (omega arith), omega arith)

get_elem?-some : (i : ℕ) (us : List ℕ) → i < length us → (m : ℕ) × (get_elem? us i ≡ some m)
get_elem?-some i [] h = absurd (omega arith)
get_elem?-some zero (u ∷ us) h = (u, refl)
get_elem?-some (suc i) (u ∷ us) h = get_elem?-some i us (omega arith)

module _ (db : Bolt) where
  length-parent_times :
      (block_map : db.Bucket ProcessedBlock) (left : ℕ) (parent : Hash) (time : ℕ) (ts : List ℕ)
      → parent_times db block_map left parent time ≡ some ts
      → length ts ≡ left
  unfolding parent_times
  length-parent_times block_map zero parent time ts h = ap length (sym (some-injective _ _ h))
  length-parent_times block_map (suc left) parent time ts h = elim (Bool-cases (parent == 0)) [
    | inl e ↦
        let (rest, run, same) =
          bind-some (parent_times db block_map left parent time) _ ts (rw (parent_times, e) at h) in
        ap length (sym (some-injective _ _ same))
        ∙ ap suc (length-parent_times block_map left parent time rest run)
    | inr e ↦
        let (p, _, h1) = bind-some (db.get parent block_map) _ ts (rw (parent_times, e) at h) in
        let (rest, run, same) =
          bind-some (parent_times db block_map left p.block.parent_id p.block.timestamp) _ ts h1 in
        ap length (sym (some-injective _ _ same))
        ∙ ap suc (length-parent_times block_map left p.block.parent_id p.block.timestamp rest run)
  ]

  -- Where the window of timestamps is read without a panic, there is an earliest timestamp for a child,
  -- and it is the median itself of the window's eleven: at least six are at most it, and at least six
  -- are at least it.
  pub minimum_valid_child_timestamp_median :
      (block_map : db.Bucket ProcessedBlock) (pb : ProcessedBlock) (ts : List ℕ)
      → window_times db block_map pb ≡ some ts
      → (m : ℕ) × (minimum_valid_child_timestamp db block_map pb ≡ some m)
        × (length ts ≡ 11)
        × (6 ≤ count (λ y. leb y m) ts)
        × (6 ≤ count (λ y. leb m y) ts)
  unfolding minimum_valid_child_timestamp window_times
  minimum_valid_child_timestamp_median block_map pb ts h =
      let (rest, run, same) =
        bind-some (parent_times db block_map 10 pb.block.parent_id pb.block.timestamp) _ ts h in
      let eleven : length ts ≡ 11 =
        ap length (sym (some-injective _ _ same))
        ∙ ap suc
            (length-parent_times block_map 10 pb.block.parent_id pb.block.timestamp rest run) in
      let len = length-sort ts ∙ eleven in
      let half : length (sort_timestamps ts) / 2 ≡ 5 = ap (λ n. n / 2) len in
      let (m, at) = get_elem?-some 5 (sort_timestamps ts) (omega arith) in
      let (low, high) = rank 5 m (sort_timestamps ts) (sort-Sorted ts) at in
      let c = count-sort (λ y. leb y m) ts in
      let d = count-sort (λ y. leb m y) ts in
      (
        m,
        rw (minimum_valid_child_timestamp, h) (ap (get_elem? (sort_timestamps ts)) half ∙ at),
        eleven,
        omega arith,
        omega arith,
      )
