-- ===== src/Consensus/Difficulty/Weight.antt =====
-- modules/consensus/processedblock.go: the weight of chains.
use sia_prime.Prelude.{ltb→lt, ◌<◌, ◌≡◌, sym, ◌∙◌, ◌≢◌, true, some, some-injective, arith}
use sia_prime.Types.Target.{add_difficulties, mul_difficulty}
use sia_prime.Types.Target.Laws.{add_difficulties-some, add_difficulties-le}
use sia_prime.Consensus.Data.{ProcessedBlock}
use sia_prime.Consensus.Panic.{bind-some}
use sia_prime.Consensus.Difficulty.{surpass_threshold, heavier_than}

-- What a block requires of a heavier one lies at most at its own depth.
heavier_than-deeper :
    (pb cmp : ProcessedBlock) → heavier_than pb cmp ≡ some true → pb.depth < cmp.depth
unfolding heavier_than
heavier_than-deeper pb cmp h =
    let (share, e1, h1) = bind-some (mul_difficulty cmp.child_target surpass_threshold) _ true h in
    let (requirement, e2, h2) = bind-some (add_difficulties cmp.depth share) _ true h1 in
    let (hx, hy, e) = add_difficulties-some cmp.depth share e2 in
    let (z, run, le, _) = add_difficulties-le cmp.depth share hx hy in
    let same : z ≡ requirement = some-injective _ _ (sym run ∙ e2) in
    let lt : pb.depth < requirement = ltb→lt _ _ (some-injective _ _ h2) in omega arith

-- Of two blocks at most one is heavier than the other, and a block that is heavier than a second,
-- which is heavier than a third, has a smaller depth than the third: the choice of the chain makes no
-- circles.
pub heavier_than-orders :
    (a b c : ProcessedBlock)
    → heavier_than a b ≡ some true
    → (heavier_than b a ≢ some true)
      × (heavier_than b c ≡ some true → (a.depth < c.depth) × (heavier_than c a ≢ some true))
heavier_than-orders a b c h =
    let ab = heavier_than-deeper a b h in
    (
      λ k. let ba = heavier_than-deeper b a k in absurd (omega arith),
      λ k.
          let bc = heavier_than-deeper b c k in
          (omega arith, λ l. let ca = heavier_than-deeper c a l in absurd (omega arith)),
    )
