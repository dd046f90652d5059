-- ===== src/Consensus/Accept/Loop.antt =====
-- modules/consensus/accept.go: what blocks that are accepted in a row leave.
use sia_prime.Prelude.{
  ltb, Bool-cases, length, ℕ, ◌≡◌, refl, sym, ap, ◌∙◌, subst, ◌⊎◌, inl, inr, none, some,
  some-injective, List, [], ◌∷◌, ◌++◌,
}
use sia_prime.Types.Data.{BlockHeight, Transaction, Block}
use sia_prime.Types.Ids.{Crypto, block_id}
use sia_prime.Types.Outcome.{Outcome}
use sia_prime.Consensus.Bolt.{Bolt, IsLawful}
use sia_prime.Consensus.Data.{ProcessedBlock}
use sia_prime.Consensus.Panic.{bind-some, none-some}
use sia_prime.Consensus.Apply.{Rules}
use sia_prime.Consensus.Generate.{SiafundFork}
use sia_prime.Consensus.Difficulty.{TargetRules}
use sia_prime.Consensus.ChangeLog.{ChangeEntry}
use sia_prime.Consensus.Headers.{
  AcceptError, non_linear_chain, non_extending_block, ConsensusSet, validate_header_and_block,
}
use sia_prime.Consensus.Accept.{
  Added, Batch, Response, are_consecutive, add_block_to_tree, respond, after_added, is_known,
  add_valid_block, accept_block, accept_loop, managed_accept_blocks,
}
use sia_prime.Consensus.Accept.Changes.{
  Reflects, LatestReflects, Latest-append, Latest-same, KeepsTip, add_block_to_tree-KeepsTip,
}

-- What the loop keeps of the changes so far.
abbrev BatchReflects : {db : Bolt} → Crypto → Batch db → Type 0
BatchReflects crypto (Batch.accepted cs changes) = LatestReflects crypto changes cs
BatchReflects crypto (Batch.rejected e dos) = Unit

module _ {db : Bolt} (law : IsLawful db) (rules : Rules) (targets : TargetRules) (now : ℕ)
    (fork : SiafundFork) (valid_signatures : BlockHeight → Transaction → Outcome) where
  after_added-Reflects :
      (cs : ConsensusSet db) (changes : List ChangeEntry) (a : Added db)
      → LatestReflects rules.crypto changes cs
      → KeepsTip rules.crypto cs a
      → BatchReflects rules.crypto (after_added changes a)
  unfolding after_added
  after_added-Reflects cs changes (Added.extended ce cs') latest k =
      elim (Bool-cases (ltb (length ce.applied_blocks) (length ce.reverted_blocks))) [
        | inl e ↦ rw (after_added, e) tt
        | inr e ↦ rw (after_added, e) (Latest-append rules.crypto changes ce cs' k)
      ]
  after_added-Reflects cs changes (Added.non_extending cs') latest (tip, log) =
      Latest-same rules.crypto changes cs cs' tip log latest
  after_added-Reflects cs changes (Added.refused e dos) latest k = tt

  add_valid_block-Reflects :
      (cs : ConsensusSet db) (changes : List ChangeEntry) (b : Block)
      (v : AcceptError ⊎ ProcessedBlock) (r : Batch db)
      → LatestReflects rules.crypto changes cs
      → add_valid_block rules targets now fork valid_signatures cs changes b v ≡ some r
      → BatchReflects rules.crypto r
  unfolding add_valid_block
  add_valid_block-Reflects cs changes b (inr parent) r latest h =
      let (a, run, p) =
        bind-some (add_block_to_tree rules targets fork valid_signatures b parent cs) _ r h in
      subst (BatchReflects rules.crypto) (some-injective _ _ p) (
        after_added-Reflects cs changes a latest
          (add_block_to_tree-KeepsTip law rules targets fork valid_signatures cs b parent a run))
  add_valid_block-Reflects cs changes b (inl e) r latest h =
      subst (BatchReflects rules.crypto) (some-injective _ _ h)
        (elim (Bool-cases (is_known e)) [ inl k ↦ rw k latest | inr k ↦ rw k tt ])

  -- The loop after the first block.
  next-Reflects :
      (b : Block) (bs : List Block) (cs : ConsensusSet db) (changes : List ChangeEntry)
      (r r1 : Batch db)
      → BatchReflects rules.crypto r1
      → ((cs' : ConsensusSet db) (changes' : List ChangeEntry)
          → LatestReflects rules.crypto changes' cs'
          → accept_loop rules targets now fork valid_signatures bs cs' changes' ≡ some r
          → BatchReflects rules.crypto r)
      → accept_block rules targets now fork valid_signatures cs changes b ≡ some r1
      → accept_loop rules targets now fork valid_signatures (b ∷ bs) cs changes ≡ some r
      → BatchReflects rules.crypto r
  unfolding accept_loop
  next-Reflects b bs cs changes r (Batch.accepted cs' changes') latest later run h =
      later cs' changes' latest (rw (accept_loop, run) at h)
  next-Reflects b bs cs changes r (Batch.rejected e dos) latest later run h =
      subst (BatchReflects rules.crypto) (some-injective _ _ (rw (accept_loop, run) at h)) tt

  accept_loop-Reflects :
      (bs : List Block) (cs : ConsensusSet db) (changes : List ChangeEntry) (r : Batch db)
      → LatestReflects rules.crypto changes cs
      → accept_loop rules targets now fork valid_signatures bs cs changes ≡ some r
      → BatchReflects rules.crypto r
  unfolding accept_loop accept_block
  accept_loop-Reflects [] cs changes r latest h =
      subst (BatchReflects rules.crypto) (some-injective _ _ h) latest
  accept_loop-Reflects (b ∷ bs) cs changes r latest h =
      let (r1, run, _) =
        bind-some (accept_block rules targets now fork valid_signatures cs changes b) _ r h in
      let (v, _, p) =
        bind-some (validate_header_and_block rules now cs b (block_id rules.crypto b)) _ r1 run in
      next-Reflects b bs cs changes r r1 (add_valid_block-Reflects cs changes b v r1 latest p)
        (λ cs' changes'. accept_loop-Reflects bs cs' changes' r) run h

  Latest-split :
      (ce : ChangeEntry) (changes : List ChangeEntry) (cs : ConsensusSet db)
      → LatestReflects rules.crypto (ce ∷ changes) cs
      → (before : List ChangeEntry) × (last : ChangeEntry) × (ce ∷ changes ≡ before ++ (last ∷ []))
        × Reflects rules.crypto last cs
  Latest-split ce [] cs latest = ([], ce, refl, latest)
  Latest-split ce (a ∷ changes) cs latest =
      let (before, last, split, reflects) = Latest-split a changes cs latest in
      (ce ∷ before, last, ap (λ xs. ce ∷ xs) split, reflects)

  respond-Reflects :
      (cs : ConsensusSet db) (r : Batch db) (response : Response db)
      → BatchReflects rules.crypto r
      → respond cs r ≡ response
      → response.error ≡ none
      → (before : List ChangeEntry) × (last : ChangeEntry) × (response.changes
          ≡ before ++ (last ∷ []))
        × Reflects rules.crypto last response.set
  unfolding respond
  respond-Reflects cs (Batch.rejected e dos) response latest h fine =
      none-some e (sym fine ∙ ap (λ x. x.error) (sym h))
  respond-Reflects cs (Batch.accepted cs' []) response latest h fine =
      none-some non_extending_block (sym fine ∙ ap (λ x. x.error) (sym h))
  respond-Reflects cs (Batch.accepted cs' (ce ∷ changes)) response latest h fine =
      subst
        (λ x.
          (before : List ChangeEntry) × (last : ChangeEntry) × (x.changes ≡ before ++ (last ∷ []))
          × Reflects rules.crypto last x.set)
        h (Latest-split ce changes cs' latest)

  -- When blocks are accepted without an error, there is a last change; if it applied blocks, then the
  -- last of them is the current block, and the change is the tail of the log.
  pub managed_accept_blocks-Reflects :
      (blocks : List Block) (cs : ConsensusSet db) (response : Response db)
      → managed_accept_blocks rules targets now fork valid_signatures blocks cs ≡ some response
      → response.error ≡ none
      → (before : List ChangeEntry) × (last : ChangeEntry) × (response.changes
          ≡ before ++ (last ∷ []))
        × Reflects rules.crypto last response.set
  unfolding managed_accept_blocks
  managed_accept_blocks-Reflects blocks cs response h fine =
      elim (Bool-cases (are_consecutive rules.crypto blocks)) [
        | inl e ↦
            let (r, run, p) =
              bind-some (accept_loop rules targets now fork valid_signatures blocks cs []) _
                response (rw (managed_accept_blocks, e) at h) in
            respond-Reflects cs r response (accept_loop-Reflects blocks cs [] r tt run)
              (some-injective _ _ p) fine
        | inr e ↦
            let same = some-injective _ _ (rw (managed_accept_blocks, e) at h) in
            none-some non_linear_chain (sym fine ∙ ap (λ x. x.error) (sym same))
      ]
