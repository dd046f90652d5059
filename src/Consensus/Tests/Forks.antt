-- ===== src/Consensus/Tests/Forks.antt =====
-- Runs of the moves between forks.
use sia_prime.Prelude.{
  ◌==◌, Bool-cases, drop, sum_of, ◌+◌, ◌≡◌, refl, sym, ap, ◌∙◌, subst, ◌⊎◌, inl, inr, true, false,
  Option, none, some, some-injective, List, [], ◌∷◌, arith,
}
use sia_prime.Types.Data.{BlockHeight, Transaction}
use sia_prime.Types.Ids.{header, header_id, block_id}
use sia_prime.Types.Outcome.{missing_signatures, Outcome}
use sia_prime.Consensus.Data.{ProcessedBlock, State}
use sia_prime.Consensus.Panic.{none-some}
use sia_prime.Consensus.Database.{
  get_path, current_block_id, get_block_map, push_path, add_dsco, remove_dsco, create_dsco_bucket,
  delete_dsco_bucket,
}
use sia_prime.Consensus.Diffs.{
  commit_file_contract_diff, commit_delayed_siacoin_output_diff,
  create_upcoming_delayed_output_maps, delete_obsolete_delayed_output_maps, commit_node_diffs,
  update_current_path, commit_diff_set,
}
use sia_prime.Consensus.Apply.{Rules}
use sia_prime.Consensus.Validity.{standalone, standalone_failure, valid_transaction}
use sia_prime.Consensus.Generate.{
  SiafundFork, validate_and_apply, create_maturity_bucket, complete_if_valid,
  generate_and_apply_diff,
}
use sia_prime.Consensus.Fork.{
  InvalidBlock, path_id, is_on_path, backtrack, backtrack_to_current_path, revert_loop,
  revert_to_block, apply_known_block, apply_new_block, apply_block, apply_blocks, apply_until_block,
  fork_blockchain,
}
use sia_prime.Prelude.Bytes.{be_bytes, le_bytes}
use sia_prime.Encoding.Integers.{enc_uint64}
use sia_prime.Types.Marshal.Encode.{write_hash}
use sia_prime.Types.Validity.{
  correct_file_contracts, correct_file_contract_revisions, fits_in_a_block, follows_minimum_values,
  follows_storage_proof_rules, enter_ids, fail_on_repeat, enter_more, no_repeats,
  all_unlock_conditions, standalone_valid,
}
use sia_prime.Types.Marshal.Size.{transaction_size}
use sia_prime.Consensus.Bolt.AssocList.{assoc_list, assoc_list-IsLawful}
use sia_prime.Consensus.Diffs.Same.{SameState, FitsBlock}
use sia_prime.Consensus.Fork.Branch.{HasParents, LeadsTo, backtrack_to_current_path-LeadsTo}
use sia_prime.Consensus.Fork.Revert.{Applied, revert_to_block-Applied}
use sia_prime.Consensus.Fork.Invalid.{StopsAt, apply_until_block-StopsAt}
use sia_prime.Consensus.Accept.{block_ids}
use sia_prime.Consensus.Accept.Tip.{last_block, fork_blockchain-current}
use sia_prime.Consensus.Tests.{next_block, next_block-FitsBlock}
use sia_prime.Consensus.Tests.Values.{network, before, empty_block, rules, payment}

-- A hash function that adds the bytes up.
abbrev sum_rules : Rules
sum_rules = record rules {
  crypto = record {
    blake2b = λ bs. sum_of (λ b. b) bs;
    merkle_root = λ bss. 7;
    verify_hash = λ h k s. true;
    verify_segment = λ b hs n i r. true;
  };
}

-- The block at height 4, with the id 40, and its child `next_block` with the id 47.
abbrev parent_block : ProcessedBlock
parent_block = record empty_block {
  block = record {
    parent_id = 33;
    nonce = 0;
    timestamp = 0;
    miner_payouts = [];
    transactions = [];
  };
  height = 4;
}

abbrev start : State assoc_list
start = record before { block_map = (47, next_block) ∷ (40, parent_block) ∷ [] }

id_40 : block_id sum_rules.crypto parent_block.block ≡ 40
unfolding block_id header_id header write_hash be_bytes le_bytes enc_uint64
id_40 = refl

id_47 : block_id sum_rules.crypto next_block.block ≡ 47
unfolding block_id header_id header write_hash be_bytes le_bytes enc_uint64
id_47 = refl

parent_block-on_path : is_on_path sum_rules start parent_block ≡ true
unfolding is_on_path path_id get_path
parent_block-on_path = rw id_40 refl

start-HasParents : HasParents sum_rules start
unfolding get_block_map
start-HasParents = record {
  has_parent = λ id pb there off. elim (Bool-cases (id == 47)) [
    | inl e ↦
        let same : next_block ≡ pb = some-injective _ _ (rw e at there) in
        subst
          (λ b.
            (parent : ProcessedBlock) × (get_block_map assoc_list b.block.parent_id start
              ≡ some parent)
            × (parent.height + 1 ≡ b.height))
          same (parent_block, refl, refl)
    | inr e ↦ elim (Bool-cases (id == 40)) [
      | inl e' ↦
          let same : parent_block ≡ pb = some-injective _ _ (rw (e, e') at there) in
          let on : true ≡ false =
            sym parent_block-on_path ∙ ap (is_on_path sum_rules start) same ∙ off in
          absurd (grind arith)
      | inr e' ↦ none-some pb (rw (e, e') at there)
    ]
  ];
}

backtrack_to_current_path-LeadsTo_example :
    (parent : ProcessedBlock) × (rest : List ProcessedBlock) × (backtrack_to_current_path sum_rules
        start next_block
      ≡ some (parent ∷ rest))
    × (is_on_path sum_rules start parent ≡ true)
    × LeadsTo sum_rules start parent rest next_block
unfolding get_block_map
backtrack_to_current_path-LeadsTo_example =
    backtrack_to_current_path-LeadsTo sum_rules start start-HasParents 47 next_block refl

next_block-FitsStart : FitsBlock assoc_list network next_block start
next_block-FitsStart = record {
  height_bound = next_block-FitsBlock.height_bound;
  path_free = next_block-FitsBlock.path_free;
  siacoins_fit = next_block-FitsBlock.siacoins_fit;
  contracts_fit = next_block-FitsBlock.contracts_fit;
  siafunds_fit = next_block-FitsBlock.siafunds_fit;
  pool_fits = next_block-FitsBlock.pool_fits;
  maturity_free = next_block-FitsBlock.maturity_free;
  delayed_fit = next_block-FitsBlock.delayed_fit;
  all_matured = next_block-FitsBlock.all_matured;
}

abbrev or_start : Option (State assoc_list) → State assoc_list
or_start none = start
or_start (some s) = s

abbrev advanced : State assoc_list
advanced = or_start (commit_diff_set assoc_list network true 47 next_block start)

advanced-runs : commit_diff_set assoc_list network true 47 next_block start ≡ some advanced
unfolding commit_diff_set commit_node_diffs update_current_path push_path
    create_upcoming_delayed_output_maps delete_obsolete_delayed_output_maps create_dsco_bucket
    delete_dsco_bucket commit_delayed_siacoin_output_diff add_dsco remove_dsco
    commit_file_contract_diff
advanced-runs = refl

advanced-Applied : Applied sum_rules 40 start (next_block ∷ []) advanced
unfolding current_block_id get_block_map
advanced-Applied =
    Applied.block_applied [] start advanced next_block (Applied.target_reached start refl refl)
      next_block-FitsStart (omega arith) (rw id_47 refl) (rw id_47 refl) (rw id_47 advanced-runs)

revert_to_block-Applied_example :
    (s' : State assoc_list) × (revert_to_block sum_rules parent_block advanced
      ≡ some (next_block ∷ [], s'))
    × SameState assoc_list s' start
revert_to_block-Applied_example =
    revert_to_block-Applied assoc_list-IsLawful sum_rules 40 start parent_block (next_block ∷ [])
      advanced (sym id_40) advanced-Applied

abbrev nothing : Transaction
nothing = record {
  siacoin_inputs = [];
  siacoin_outputs = [];
  file_contracts = [];
  file_contract_revisions = [];
  storage_proofs = [];
  siafund_inputs = [];
  siafund_outputs = [];
  miner_fees = [];
  arbitrary_data = [];
  transaction_signatures = [];
}

-- A child whose transaction's signatures are refused.
abbrev bad_block : ProcessedBlock
bad_block = record empty_block {
  block = record {
    parent_id = 40;
    nonce = 1;
    timestamp = 0;
    miner_payouts = [];
    transactions = nothing ∷ [];
  };
}

abbrev no_siafunds : SiafundFork
no_siafunds = record { genesis_siafunds = payment; forked_allocation = [] }

abbrev refused_signatures : BlockHeight → Transaction → Outcome
refused_signatures height t = some missing_signatures

abbrev refusal : InvalidBlock
refusal = record { dos_block = 48; reason = standalone missing_signatures }

id_48 : block_id sum_rules.crypto bad_block.block ≡ 48
unfolding block_id header_id header write_hash be_bytes le_bytes enc_uint64
id_48 = refl

bad_block-off_path : is_on_path sum_rules start bad_block ≡ false
unfolding is_on_path path_id get_path
bad_block-off_path = rw id_48 refl

bad_block-backtrack :
    backtrack_to_current_path sum_rules start bad_block ≡ some (parent_block ∷ bad_block ∷ [])
unfolding backtrack_to_current_path backtrack get_block_map is_on_path path_id get_path block_id
    header_id write_hash be_bytes header le_bytes enc_uint64
bad_block-backtrack = refl

bad_block-refused :
    generate_and_apply_diff sum_rules no_siafunds refused_signatures
      (record { pb = bad_block; tx = start })
    ≡ some (inl refusal.reason)
unfolding generate_and_apply_diff validate_and_apply create_maturity_bucket complete_if_valid
    valid_transaction standalone_failure standalone_valid fits_in_a_block
    follows_storage_proof_rules no_repeats follows_minimum_values correct_file_contracts
    correct_file_contract_revisions all_unlock_conditions transaction_size enter_more enter_ids
    fail_on_repeat
bad_block-refused = refl

bad_block-stops :
    apply_until_block sum_rules no_siafunds refused_signatures bad_block start ≡ some (inl refusal)
unfolding apply_until_block apply_blocks apply_block apply_new_block
bad_block-stops = rw (bad_block-backtrack, bad_block-refused, id_48) refl

apply_until_block-StopsAt_example :
    (path : List ProcessedBlock) × (backtrack_to_current_path sum_rules start bad_block ≡ some path)
    × StopsAt sum_rules no_siafunds refused_signatures (drop 1 path) start refusal
apply_until_block-StopsAt_example =
    apply_until_block-StopsAt sum_rules no_siafunds refused_signatures bad_block start refusal
      bad_block-stops

-- The child, with its diffs known, is moved to.
abbrev known_block : ProcessedBlock
known_block = record next_block { diffs_generated = true }

known_block-id : block_id sum_rules.crypto known_block.block ≡ 47
unfolding block_id header_id header write_hash be_bytes le_bytes enc_uint64
known_block-id = refl

known_block-runs : commit_diff_set assoc_list network true 47 known_block start ≡ some advanced
unfolding commit_diff_set commit_node_diffs update_current_path push_path
    create_upcoming_delayed_output_maps delete_obsolete_delayed_output_maps create_dsco_bucket
    delete_dsco_bucket commit_delayed_siacoin_output_diff add_dsco remove_dsco
    commit_file_contract_diff
known_block-runs = refl

known_block-backtrack :
    backtrack_to_current_path sum_rules start known_block ≡ some (parent_block ∷ known_block ∷ [])
unfolding backtrack_to_current_path backtrack get_block_map is_on_path path_id get_path block_id
    header_id write_hash be_bytes header le_bytes enc_uint64
known_block-backtrack = refl

parent_block-current : revert_to_block sum_rules parent_block start ≡ some ([], start)
unfolding revert_to_block revert_loop current_block_id get_path block_id header_id write_hash
    be_bytes header le_bytes enc_uint64
parent_block-current = refl

known_block-forks :
    fork_blockchain sum_rules no_siafunds refused_signatures known_block start
    ≡ some (inr ([], (known_block ∷ [], advanced)))
unfolding fork_blockchain apply_until_block apply_blocks apply_block apply_known_block
known_block-forks =
    rw
      (
        known_block-backtrack, parent_block-current, known_block-backtrack, known_block-id,
        known_block-runs,
      )
      refl

fork_blockchain-current_example :
    (block_ids sum_rules.crypto (known_block ∷ []) ≡ [])
    ⊎ (last_block (block_ids sum_rules.crypto (known_block ∷ []))
        ≡ some (current_block_id assoc_list advanced))
fork_blockchain-current_example =
    fork_blockchain-current assoc_list-IsLawful sum_rules no_siafunds refused_signatures known_block
      start [] (known_block ∷ []) advanced known_block-forks
