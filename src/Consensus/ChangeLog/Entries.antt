-- ===== src/Consensus/ChangeLog/Entries.antt =====
-- modules/consensus/changelog.go: the operations on the list of changes.
use sia_prime.Prelude.{
  ◌==◌, get_elem?, All-append, ◌≡◌, refl, sym, ap, ◌∙◌, true, false, some, List, [], ◌∷◌, ◌++◌,
}
use sia_prime.Types.Data.{Block}
use sia_prime.Types.Ids.{Crypto}
use sia_prime.Consensus.Bolt.{Bolt, IsLawful}
use sia_prime.Consensus.ChangeLog.{
  ChangeEntry, ChangeNode, ChangeLog, entry_id, genesis_entry, or_zero_id, append_change_log,
  get_entry, next_entry, create_change_log,
}
use sia_prime.Consensus.ChangeLog.Chain.{
  last_id, Fresh, Chain, Logs, last_id-All, last_id-append, ==-flip, Distinct-append, get-put-other,
  get-put-same, link_tail-Chain,
}

module _ {db : Bolt} (law : IsLawful db) (crypto : Crypto) where
  Logs-first :
      (log : ChangeLog db) (ce : ChangeEntry)
      → Logs db crypto log []
      → (entry_id crypto ce == 0) ≡ false
      → (log' : ChangeLog db) × (append_change_log crypto ce log ≡ some log')
        × Logs db crypto log' (ce ∷ [])
  unfolding append_change_log
  Logs-first log ce logs nonzero =
      let id = entry_id crypto ce in
      let node : ChangeNode = record { entry = ce; next = 0 } in
      let empty : (or_zero_id log.tail_id == 0) ≡ true = ap (λ i. i == 0) logs.tail in
      (
        record { nodes = db.put id node log.nodes; tail_id = some id },
        rw (append_change_log, empty) refl,
        record {
          chain = (get-put-same law id node log.nodes, tt);
          tail = refl;
          distinct = (tt, tt);
          no_zero = (nonzero, tt);
          zero_free =
              get-put-other law 0 id node log.nodes (==-flip crypto id 0 nonzero) ∙ logs.zero_free;
        },
      )

  -- An entry whose id is not zero and not the id of an entry of the log is appended without an error,
  -- and the log then holds it after all the others.
  pub append_change_log-Logs :
      (log : ChangeLog db) (es : List ChangeEntry) (ce : ChangeEntry)
      → Logs db crypto log es
      → (entry_id crypto ce == 0) ≡ false
      → Fresh crypto (entry_id crypto ce) es
      → (log' : ChangeLog db) × (append_change_log crypto ce log ≡ some log')
        × Logs db crypto log' (es ++ (ce ∷ []))
  unfolding append_change_log
  append_change_log-Logs log [] ce logs nonzero fresh = Logs-first log ce logs nonzero
  append_change_log-Logs log (e ∷ es) ce logs nonzero fresh =
      let id = entry_id crypto ce in
      let last = last_id crypto (entry_id crypto e) es in
      let (linked, run, elsewhere, chain) =
        link_tail-Chain law crypto log.nodes ce e es logs.chain logs.distinct fresh in
      let last_nonzero : (last == 0) ≡ false =
        last_id-All crypto (λ i. (i == 0) ≡ false) (entry_id crypto e) es logs.no_zero.0
          logs.no_zero.1 in
      let there : (or_zero_id log.tail_id == 0) ≡ false =
        ap (λ i. i == 0) logs.tail ∙ last_nonzero in
      (
        record { nodes = linked; tail_id = some id },
        rw (append_change_log, there, logs.tail, run) refl,
        record {
          chain = chain;
          tail = sym (last_id-append crypto 0 (e ∷ es) ce);
          distinct = Distinct-append crypto (e ∷ es) ce logs.distinct fresh;
          no_zero = All-append _ (e ∷ es) (ce ∷ []) logs.no_zero (nonzero, tt);
          zero_free =
              elsewhere 0 (==-flip crypto id 0 nonzero) (==-flip crypto last 0 last_nonzero)
              ∙ logs.zero_free;
        },
      )

  Chain-after :
      (nodes : db.Bucket ChangeNode) (before after : List ChangeEntry)
      → Chain db crypto nodes (before ++ after)
      → Chain db crypto nodes after
  Chain-after nodes [] after chain = chain
  Chain-after nodes (e ∷ before) after (_, chain) = Chain-after nodes before after chain

  -- `NextEntry` of an entry of the log is the entry after it, and of the last one there is none.
  pub next_entry-Logs :
      (log : ChangeLog db) (before : List ChangeEntry) (e : ChangeEntry) (after : List ChangeEntry)
      → Logs db crypto log (before ++ (e ∷ after))
      → next_entry crypto e log ≡ get_elem? after 0
  unfolding next_entry get_entry
  next_entry-Logs log before e [] logs =
      let (here, _) = Chain-after log.nodes before (e ∷ []) logs.chain in
      rw (next_entry, here, logs.zero_free) refl
  next_entry-Logs log before e (f ∷ after) logs =
      let (here, (next, _)) = Chain-after log.nodes before (e ∷ f ∷ after) logs.chain in
      rw (next_entry, here, next) refl

  -- A new log holds the entry of the genesis block.
  pub create_change_log-Logs :
      (root : Block)
      → (entry_id crypto (genesis_entry crypto root) == 0) ≡ false
      → Logs db crypto (create_change_log crypto root) (genesis_entry crypto root ∷ [])
  unfolding create_change_log
  create_change_log-Logs root nonzero =
      let ge = genesis_entry crypto root in
      let node : ChangeNode = record { entry = ge; next = 0 } in
      record {
        chain = (get-put-same law (entry_id crypto ge) node db.empty, tt);
        tail = refl;
        distinct = (tt, tt);
        no_zero = (nonzero, tt);
        zero_free =
            get-put-other law 0 (entry_id crypto ge) node db.empty
              (==-flip crypto (entry_id crypto ge) 0 nonzero)
            ∙ law.get-empty 0;
      }
