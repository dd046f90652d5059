-- ===== src/Consensus/Maintenance/Maturing.antt =====
-- modules/consensus/maintenance.go: what the outputs that mature become.
use sia_prime.Prelude.{
  ltb, leb, ◌==◌, if◌then◌else◌, ==→eq, Bool-cases, ℕ, ◌≡◌, refl, ap, ◌∙◌, inl, inr, true, false,
  Option, none, some, List, [], ◌∷◌, ◌++◌, map, arith,
}
use sia_prime.Types.Data.{Hash, BlockHeight, SiacoinOutput}
use sia_prime.Consensus.Bolt.{Bolt, IsLawful}
use sia_prime.Consensus.Data.{State}
use sia_prime.Consensus.Panic.{try_loop, ==-refl}
use sia_prime.Consensus.Database.{add_siacoin_output, remove_dsco, delete_dsco_bucket}
use sia_prime.Consensus.Diffs.{commit_siacoin_output_diff, commit_delayed_siacoin_output_diff}
use sia_prime.Consensus.Apply.{Work, Rules, push_siacoin_output_diff, push_delayed_diff}
use sia_prime.Consensus.Maintenance.{
  maturing_diff, matured_diff, mature_outputs, apply_matured_siacoin_outputs,
}

-- The value of a key in a list of entries.
abbrev pub entry_of {ℓ} : {V : Type ℓ} → ℕ → List (ℕ × V) → Option V
entry_of k [] = none
entry_of k ((j, v) ∷ es) = if k == j then some v else entry_of k es

-- No key comes twice.
abbrev pub DistinctKeys {ℓ} : {V : Type ℓ} → List (ℕ × V) → Type ℓ
DistinctKeys [] = Unit
DistinctKeys ((k, v) ∷ es) = (entry_of k es ≡ none) × DistinctKeys es

abbrev pub or_else {ℓ} : {A : Type ℓ} → Option A → Option A → Option A
or_else none o = o
or_else (some a) o = some a

-- States with the same of all but siacoin outputs and delayed outputs.
abbrev pub Elsewhere : {db : Bolt} → State db → State db → Type 0
Elsewhere s s' =
    (s.block_height ≡ s'.block_height)
    × (s.block_path ≡ s'.block_path)
    × (s.block_map ≡ s'.block_map)
    × (s.contracts ≡ s'.contracts)
    × (s.siafund_outputs ≡ s'.siafund_outputs)
    × (s.siafund_pool ≡ s'.siafund_pool)

module _ {db : Bolt} (law : IsLawful db) where
  added :
      (es : List (Hash × SiacoinOutput)) (w : Work db)
      → DistinctKeys es
      → (w' : Work db) × (try_loop push_siacoin_output_diff (map maturing_diff es) w ≡ some w')
        × ((k : Hash)
            → db.get k w'.tx.siacoin_outputs
              ≡ or_else (entry_of k es) (db.get k w.tx.siacoin_outputs))
        × (w'.tx.delayed_outputs ≡ w.tx.delayed_outputs)
        × (w'.pb.height ≡ w.pb.height)
        × Elsewhere w'.tx w.tx
  unfolding maturing_diff push_siacoin_output_diff commit_siacoin_output_diff add_siacoin_output
  added [] w distinct = (w, refl, λ k. refl, refl, refl, (refl, refl, refl, refl, refl, refl))
  added ((j, sco) ∷ es) w (fresh, distinct) =
      let (w', run, got, d, h, others) =
        added es
          (record {
            pb = record w.pb {
              siacoin_output_diffs = w.pb.siacoin_output_diffs ++ (maturing_diff (j, sco) ∷ []);
            };
            tx = record w.tx { siacoin_outputs = db.put j sco w.tx.siacoin_outputs };
          })
          distinct in
      (
        w',
        run,
        λ k.
            let put = law.get-put k j sco w.tx.siacoin_outputs in
            elim (Bool-cases (k == j)) [
              | inl e ↦
                  let none_left : entry_of k es ≡ none =
                    ap (λ x. entry_of x es) (==→eq k j e) ∙ fresh in
                  rw e (got k ∙ (rw none_left (put ∙ rw e refl)))
              | inr e ↦ rw e (got k ∙ ap (or_else (entry_of k es)) (put ∙ rw e refl))
            ],
        d,
        h,
        others,
      )

  removed :
      (height : BlockHeight) (es : List (Hash × SiacoinOutput)) (w : Work db)
      (bucket : db.Bucket SiacoinOutput)
      → db.get height w.tx.delayed_outputs ≡ some bucket
      → (w' : Work db) × (try_loop push_delayed_diff (map (matured_diff height) es) w ≡ some w')
        × ((k : BlockHeight)
            → (k == height) ≡ false
            → db.get k w'.tx.delayed_outputs ≡ db.get k w.tx.delayed_outputs)
        × (w'.tx.siacoin_outputs ≡ w.tx.siacoin_outputs)
        × (w'.pb.height ≡ w.pb.height)
        × Elsewhere w'.tx w.tx
  unfolding matured_diff push_delayed_diff commit_delayed_siacoin_output_diff remove_dsco
  removed height [] w bucket there =
      (w, refl, λ k other. refl, refl, refl, (refl, refl, refl, refl, refl, refl))
  removed height ((j, sco) ∷ es) w bucket there =
      let b = db.delete j bucket in
      let left = db.put height b w.tx.delayed_outputs in
      let (w', run, kept, s, h, others) =
        removed height es
          (record {
            pb = record w.pb {
              delayed_siacoin_output_diffs =
                  w.pb.delayed_siacoin_output_diffs ++ (matured_diff height (j, sco) ∷ []);
            };
            tx = record w.tx { delayed_outputs = left };
          })
          b (law.get-put height height b w.tx.delayed_outputs ∙ rw (==-refl height) refl) in
      (
        w',
        rw there run,
        λ k other. kept k other ∙ (law.get-put k height b w.tx.delayed_outputs ∙ rw other refl),
        s,
        h,
        others,
      )

  -- Once the chain is as long as the maturity delay, and the delayed outputs of the block's height are
  -- there under distinct ids, each of them becomes a siacoin output, every other siacoin output stays
  -- as it is, the height has no delayed outputs any more, those of other heights stay, and so does the
  -- rest of the state; nothing panics.
  pub apply_matured_siacoin_outputs-move :
      (rules : Rules) (w : Work db) (bucket : db.Bucket SiacoinOutput)
      → leb rules.network.maturity_delay w.pb.height ≡ true
      → db.get w.pb.height w.tx.delayed_outputs ≡ some bucket
      → DistinctKeys (db.entries bucket)
      → (w' : Work db) × (apply_matured_siacoin_outputs rules w ≡ some w')
        × ((id : Hash)
            → db.get id w'.tx.siacoin_outputs
              ≡ or_else (entry_of id (db.entries bucket)) (db.get id w.tx.siacoin_outputs))
        × (db.get w.pb.height w'.tx.delayed_outputs ≡ none)
        × ((k : BlockHeight)
            → (k == w.pb.height) ≡ false
            → db.get k w'.tx.delayed_outputs ≡ db.get k w.tx.delayed_outputs)
        × Elsewhere w'.tx w.tx
  unfolding apply_matured_siacoin_outputs mature_outputs delete_dsco_bucket
  apply_matured_siacoin_outputs-move rules w bucket due there distinct =
      let height = w.pb.height in
      let (w1, run1, got, same_d, same_h, others1) = added (db.entries bucket) w distinct in
      let (w2, run2, kept, same_s, same_h2, others2) =
        removed height (db.entries bucket) w1 bucket (ap (db.get height) same_d ∙ there) in
      let late : ltb height rules.network.maturity_delay ≡ false = ground arith in
      let gone = λ (k : BlockHeight). law.get-delete k height w2.tx.delayed_outputs in
      let run : mature_outputs (db.entries bucket) w
          ≡ some (record w2 {
            tx = record w2.tx { delayed_outputs = db.delete height w2.tx.delayed_outputs };
          }) =
        rw (mature_outputs, run1) (rw run2 refl) in
      (
        record w2 {
          tx = record w2.tx { delayed_outputs = db.delete height w2.tx.delayed_outputs };
        },
        rw (apply_matured_siacoin_outputs, late, there) run,
        λ id. ap (db.get id) same_s ∙ got id,
        gone height ∙ rw (==-refl height) refl,
        λ k other. gone k ∙ (rw other (kept k other ∙ ap (db.get k) same_d)),
        (
          others2.0 ∙ others1.0,
          others2.1 ∙ others1.1,
          others2.2 ∙ others1.2,
          others2.3 ∙ others1.3,
          others2.4 ∙ others1.4,
          others2.5 ∙ others1.5,
        ),
      )
