-- ===== src/Consensus/Tests/Values.antt =====
-- Concrete values that the runs share.
use sia_prime.Prelude.{true, false, [], ◌∷◌}
use sia_prime.Types.Data.{SiacoinOutput, FileContract, Transaction}
use sia_prime.Types.Network.{Network, standard}
use sia_prime.Consensus.Bolt.AssocList.{assoc_list}
use sia_prime.Consensus.Data.{ProcessedBlock, State}
use sia_prime.Consensus.Apply.{Rules}

-- Outputs mature after two blocks.
abbrev pub network : Network
network = record standard { maturity_delay = 2; tax_hardfork_height = 0 }

abbrev pub output : SiacoinOutput
output = record { value = 50; unlock_hash = 7 }

abbrev pub contract : FileContract
contract = record {
  file_size = 64;
  file_merkle_root = 5;
  window_start = 10;
  window_end = 20;
  payout = 1000000;
  valid_proof_outputs = record { value = 970000; unlock_hash = 7 } ∷ [];
  missed_proof_outputs = record { value = 970000; unlock_hash = 8 } ∷ [];
  unlock_hash = 9;
  revision_number = 0;
}

-- At height 4, one siacoin output is unspent and another matures in the next block.
abbrev pub before : State assoc_list
before = record {
  block_height = 4;
  block_path = (4, 40) ∷ [];
  block_map = [];
  siacoin_outputs = (1, output) ∷ [];
  contracts = record { file_contracts = []; expirations = [] };
  siafund_outputs = [];
  siafund_pool = 7;
  delayed_outputs = (5, (9, output) ∷ []) ∷ (6, []) ∷ [];
}

abbrev pub empty_block : ProcessedBlock
empty_block = record {
  block = record {
    parent_id = 40;
    nonce = 0;
    timestamp = 0;
    miner_payouts = [];
    transactions = [];
  };
  height = 5;
  depth = 0;
  child_target = 0;
  diffs_generated = false;
  siacoin_output_diffs = [];
  file_contract_diffs = [];
  siafund_output_diffs = [];
  delayed_siacoin_output_diffs = [];
  siafund_pool_diffs = [];
}

-- Hash functions that are constant.
abbrev pub rules : Rules
rules = record {
  network = network;
  crypto = record {
    blake2b = λ bs. 77;
    merkle_root = λ bss. 7;
    verify_hash = λ h k s. true;
    verify_segment = λ b hs n i r. true;
  };
  last_genesis_hash = 6;
}

abbrev pub payment : Transaction
payment = record {
  siacoin_inputs =
      record {
        parent_id = 1;
        unlock_conditions = record { timelock = 0; public_keys = []; signatures_required = 0 };
      }
      ∷ [];
  siacoin_outputs = record { value = 45; unlock_hash = 3 } ∷ [];
  file_contracts = [];
  file_contract_revisions = [];
  storage_proofs = [];
  siafund_inputs = [];
  siafund_outputs = [];
  miner_fees = 5 ∷ [];
  arbitrary_data = [];
  transaction_signatures = [];
}
