-- ===== src/Consensus/Tests/Log.antt =====
-- Runs of the list of changes.
use sia_prime.Prelude.{
  get_elem?, sum_of, ◌≡◌, refl, sym, subst, true, Option, none, some, [], ◌∷◌, ◌++◌,
}
use sia_prime.Types.Data.{Block}
use sia_prime.Types.Ids.{Crypto, header, header_id, block_id}
use sia_prime.Types.Marshal.Encode.{write_hash, write_slice}
use sia_prime.Prelude.Bytes.{be_bytes, le_bytes}
use sia_prime.Encoding.Integers.{enc_uint64}
use sia_prime.Encoding.Decoder.Laws.{concat_map}
use sia_prime.Consensus.Bolt.AssocList.{assoc_list, assoc_list-IsLawful}
use sia_prime.Consensus.ChangeLog.{
  ChangeEntry, ChangeLog, entry_id, genesis_entry, append_change_log, next_entry, create_change_log,
}
use sia_prime.Consensus.ChangeLog.Chain.{Logs}
use sia_prime.Consensus.ChangeLog.Entries.{
  append_change_log-Logs, next_entry-Logs, create_change_log-Logs,
}

-- A hash function that adds the bytes up.
abbrev sum_crypto : Crypto
sum_crypto = record {
  blake2b = λ bs. sum_of (λ b. b) bs;
  merkle_root = λ bss. 7;
  verify_hash = λ h k s. true;
  verify_segment = λ b hs n i r. true;
}

abbrev genesis : Block
genesis = record { parent_id = 33; nonce = 0; timestamp = 0; miner_payouts = []; transactions = [] }

abbrev first : ChangeEntry
first = genesis_entry sum_crypto genesis

-- The block 47 is applied after the genesis block.
abbrev second : ChangeEntry
second = record { reverted_blocks = []; applied_blocks = 47 ∷ [] }

abbrev log : ChangeLog assoc_list
log = create_change_log sum_crypto genesis

first-id : entry_id sum_crypto first ≡ 42
unfolding entry_id genesis_entry block_id header_id header write_slice concat_map write_hash
    be_bytes le_bytes enc_uint64
first-id = refl

second-id : entry_id sum_crypto second ≡ 49
unfolding entry_id write_slice concat_map write_hash be_bytes le_bytes enc_uint64
second-id = refl

log-Logs : Logs assoc_list sum_crypto log (first ∷ [])
log-Logs = create_change_log-Logs assoc_list-IsLawful sum_crypto genesis (rw first-id refl)

append_change_log-Logs_example :
    (log' : ChangeLog assoc_list) × (append_change_log sum_crypto second log ≡ some log')
    × Logs assoc_list sum_crypto log' ((first ∷ []) ++ (second ∷ []))
append_change_log-Logs_example =
    append_change_log-Logs assoc_list-IsLawful sum_crypto log (first ∷ []) second log-Logs
      (rw second-id refl) (rw (first-id, second-id) refl, tt)

abbrev or_log : Option (ChangeLog assoc_list) → ChangeLog assoc_list
or_log none = log
or_log (some l) = l

abbrev longer : ChangeLog assoc_list
longer = or_log (append_change_log sum_crypto second log)

longer-Logs : Logs assoc_list sum_crypto longer (first ∷ second ∷ [])
longer-Logs =
    let (log', run, logs) =
      append_change_log-Logs assoc_list-IsLawful sum_crypto log (first ∷ []) second log-Logs
        (rw second-id refl) (rw (first-id, second-id) refl, tt) in
    subst (λ r. Logs assoc_list sum_crypto (or_log r) (first ∷ second ∷ [])) (sym run) logs

next_entry-Logs_example : next_entry sum_crypto first longer ≡ get_elem? (second ∷ []) 0
next_entry-Logs_example =
    next_entry-Logs assoc_list-IsLawful sum_crypto longer [] first (second ∷ []) longer-Logs
