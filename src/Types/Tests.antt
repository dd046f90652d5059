-- ===== src/Types/Tests.antt =====
-- Runs of the definitions of types at concrete values, and the theorems applied to them.
use sia_prime.Prelude.{
  ltb, ltb→lt, length, All, ◌+◌, ◌*◌, ◌%◌, ◌≤◌, ◌<◌, ◌≡◌, refl, ◌↔◌, true, false, none, [], ◌∷◌,
  ◌++◌, arith,
}
use sia_prime.Prelude.Bytes.{of_be, le_bytes, be_bytes}
use sia_prime.Encoding.Integers.{enc_uint64, dec_uint64}
use sia_prime.Encoding.Decoder.{ok}
use sia_prime.Encoding.Decoder.Laws.{concat_map}
use sia_prime.Types.Data.{
  UnlockConditions, SiacoinOutput, FileContract, CoveredFields, Transaction, Block,
}
use sia_prime.Types.Network.{standard}
use sia_prime.Types.Currency.{round_down, tax, siafund_count, mul_tax}
use sia_prime.Types.Currency.Laws.{round_down_lem, tax_bounds}
use sia_prime.Types.Subsidy.{
  airdrop_coins, calculate_subsidy, calculate_subsidies, calculate_num_siacoins,
}
use sia_prime.Types.Subsidy.Laws.{subsidies_add_up}
use sia_prime.Types.Subsidy.Circulation.{coinbase_sum, num_siacoins-eq_sum}
use sia_prime.Types.Outcome.{Outcome}
use sia_prime.Types.Validity.{enter_ids, fail_on_repeat, standalone_valid}
use sia_prime.Types.Validity.Laws.{IsStandaloneValid, standalone_valid_iff}
use sia_prime.Types.Validity.Distinct.{Distinct, enter_ids_iff}
use sia_prime.Types.Sums.{siacoin_output_sum, siacoin_output_sum_lem}
use sia_prime.Types.CoveredFields.{
  climb, sorted_unique, field_maxs, signatures_max, all_empty, check_whole, check_field,
  valid_signature_fields, valid_covered_fields,
}
use sia_prime.Types.CoveredFields.Laws.{
  Ascending, sorted_unique_iff, CoversFields, valid_covered_fields_iff,
}
use sia_prime.Types.Marshal.Currency.{
  word_count, seek, byte_count, marshal_currency, currency_size, byte_count-le,
}
use sia_prime.Types.Marshal.Encode.{
  write_hash, write_slice, marshal_unlock_conditions, marshal_siacoin_input, marshal_siacoin_output,
  marshal_file_contract, marshal_no_signatures, marshal_transaction, marshal_block,
}
use sia_prime.Types.Marshal.Decode.{unmarshal_transaction, unmarshal_block}
use sia_prime.Types.Marshal.Size.{
  unlock_conditions_size, siacoin_output_size, file_contract_size, siacoin_input_size,
  transaction_size,
}
use sia_prime.Types.Marshal.Size.Laws.{length-marshal_transaction}
use sia_prime.Types.Marshal.Layout.{slice, window_end_at, parent_and_timestamp_at}
use sia_prime.Types.Marshal.RoundTrip.Whole.{
  TransactionFits, BlockFits, unmarshal_transaction-marshal_transaction,
  unmarshal_block-marshal_block,
}

abbrev conditions : UnlockConditions
conditions = record { timelock = 0; public_keys = []; signatures_required = 1 }

abbrev output : SiacoinOutput
output = record { value = 961; unlock_hash = 7 }

abbrev contract : FileContract
contract = record {
  file_size = 64;
  file_merkle_root = 5;
  window_start = 30000;
  window_end = 30100;
  payout = 1000000;
  valid_proof_outputs = record { value = 970000; unlock_hash = 7 } ∷ [];
  missed_proof_outputs = record { value = 970000; unlock_hash = 8 } ∷ [];
  unlock_hash = 9;
  revision_number = 0;
}

abbrev transaction : Transaction
transaction = record {
  siacoin_inputs = record { parent_id = 3; unlock_conditions = conditions } ∷ [];
  siacoin_outputs = output ∷ [];
  file_contracts = contract ∷ [];
  file_contract_revisions = [];
  storage_proofs = [];
  siafund_inputs = [];
  siafund_outputs = [];
  miner_fees = 39 ∷ [];
  arbitrary_data = [];
  transaction_signatures = [];
}

-- A coin of 1000 for an output and a fee.
abbrev payment : Transaction
payment = record transaction { file_contracts = [] }

abbrev block : Block
block = record {
  parent_id = 4;
  nonce = 300;
  timestamp = 1500000000;
  miner_payouts = output ∷ [];
  transactions = payment ∷ [];
}

tax-run : tax 21000 25000 1000000 ≡ 30000
unfolding tax mul_tax round_down
tax-run = refl

tax_bounds_example :
    (tax 21000 20000 1000000 % siafund_count ≡ 0) × (1000 * tax 21000 20000 1000000 ≤ 39 * 1000000)
tax_bounds_example = tax_bounds 21000 20000 1000000

round_down_lem_example :
    (round_down 25 10 (omega arith) % 10 ≡ 0)
    × (round_down 25 10 (omega arith) ≤ 25)
    × (25 < round_down 25 10 (omega arith) + 10)
round_down_lem_example = round_down_lem 25 10 (omega arith)

subsidies_add_up_example :
    (calculate_subsidies standard block 50000).0 + (calculate_subsidies standard block 50000).1
    ≡ calculate_subsidy standard block 50000
subsidies_add_up_example = subsidies_add_up standard block 50000 (omega arith)

length-marshal_transaction_example :
    length (marshal_transaction transaction) ≡ transaction_size transaction
length-marshal_transaction_example = length-marshal_transaction transaction tt

window_end_at_example : dec_uint64 (slice 48 8 (marshal_file_contract contract)) ≡ 30100
window_end_at_example = window_end_at contract (omega arith)

enter_ids_iff_example :
    (fail_on_repeat (enter_ids [] (1 ∷ 2 ∷ 1 ∷ [])) ≡ none) ↔ Distinct (1 ∷ 2 ∷ 1 ∷ [])
enter_ids_iff_example = enter_ids_iff (1 ∷ 2 ∷ 1 ∷ [])

standalone_valid_iff_example :
    (standalone_valid standard (λ h t. none) 25000 transaction ≡ none)
    ↔ (IsStandaloneValid standard 25000 transaction × (Path Outcome none none))
standalone_valid_iff_example = standalone_valid_iff standard (λ h t. none) 25000 transaction

siacoin_output_sum_lem_example : siacoin_output_sum transaction ≡ 961 + 0 + (1000000 + 0) + (39 + 0)
siacoin_output_sum_lem_example = siacoin_output_sum_lem transaction

num_siacoins-eq_sum_example :
    calculate_num_siacoins standard 299000 ≡ airdrop_coins + coinbase_sum standard 299000
num_siacoins-eq_sum_example = num_siacoins-eq_sum standard (omega arith) 299000 (omega arith)

parent_and_timestamp_at_example :
    (of_be (slice 0 32 (marshal_block block ++ (1 ∷ []))) ≡ 4)
    × (dec_uint64 (slice 40 8 (marshal_block block ++ (1 ∷ []))) ≡ 1500000000)
parent_and_timestamp_at_example = parent_and_timestamp_at block (1 ∷ []) (omega arith) (omega arith)

transaction-TransactionFits : TransactionFits transaction
transaction-TransactionFits = ground (
  arith,
  byte_count-le 961 2 (omega arith),
  byte_count-le 970000 3 (omega arith),
  byte_count-le 1000000 3 (omega arith),
  byte_count-le 39 1 (omega arith),
)

block-BlockFits : BlockFits block
block-BlockFits =
    ground (arith, byte_count-le 961 2 (omega arith), byte_count-le 39 1 (omega arith))

length-transaction : length (marshal_transaction transaction) ≤ 1000
unfolding transaction_size siacoin_input_size unlock_conditions_size siacoin_output_size
    file_contract_size currency_size
length-transaction = omega (
  arith,
  length-marshal_transaction transaction tt,
  byte_count-le 961 2 (omega arith),
  byte_count-le 970000 3 (omega arith),
  byte_count-le 1000000 3 (omega arith),
  byte_count-le 39 1 (omega arith),
)

length-block : ltb (length (marshal_block block)) 1000 ≡ true
unfolding marshal_block marshal_transaction marshal_no_signatures marshal_siacoin_input
    marshal_unlock_conditions marshal_siacoin_output marshal_file_contract write_slice write_hash
    enc_uint64 marshal_currency byte_count word_count seek le_bytes be_bytes concat_map
length-block = refl

unmarshal_transaction-marshal_transaction_example :
    unmarshal_transaction (record { input = marshal_transaction transaction ++ (9 ∷ []); n = 0 })
    ≡ ok transaction (record { input = 9 ∷ []; n = 0 + length (marshal_transaction transaction) })
unmarshal_transaction-marshal_transaction_example =
    unmarshal_transaction-marshal_transaction transaction (9 ∷ []) 0 transaction-TransactionFits
      (omega (arith, length-transaction))

unmarshal_block-marshal_block_example :
    unmarshal_block (record { input = marshal_block block ++ (9 ∷ []); n = 0 })
    ≡ ok block (record { input = 9 ∷ []; n = 0 + length (marshal_block block) })
unmarshal_block-marshal_block_example =
    unmarshal_block-marshal_block block (9 ∷ []) 0 block-BlockFits
      (let b = ltb→lt _ _ length-block in omega arith)

-- A signature of the input and the contract, and one of the whole transaction.
abbrev no_fields : CoveredFields
no_fields = record {
  whole_transaction = false;
  siacoin_inputs = [];
  siacoin_outputs = [];
  file_contracts = [];
  file_contract_revisions = [];
  storage_proofs = [];
  siafund_inputs = [];
  siafund_outputs = [];
  miner_fees = [];
  arbitrary_data = [];
  transaction_signatures = [];
}

abbrev signed : Transaction
signed = record transaction {
  transaction_signatures =
      record {
        parent_id = 3;
        public_key_index = 0;
        timelock = 0;
        signature = [];
        covered_fields = record no_fields { siacoin_inputs = 0 ∷ []; file_contracts = 0 ∷ [] };
      }
      ∷ record {
        parent_id = 3;
        public_key_index = 1;
        timelock = 0;
        signature = [];
        covered_fields = record no_fields {
          whole_transaction = true;
          transaction_signatures = 0 ∷ 1 ∷ [];
        };
      }
      ∷ [];
}

valid_covered_fields-run : valid_covered_fields signed ≡ none
unfolding valid_covered_fields valid_signature_fields check_whole all_empty field_maxs
    signatures_max check_field sorted_unique climb
valid_covered_fields-run = refl

valid_covered_fields_iff_example :
    (valid_covered_fields signed ≡ none) ↔ All (CoversFields signed) signed.transaction_signatures
valid_covered_fields_iff_example = valid_covered_fields_iff signed

sorted_unique_iff_example :
    (sorted_unique (1 ∷ 4 ∷ 6 ∷ []) 7 ≡ true)
    ↔ (Ascending (1 ∷ 4 ∷ 6 ∷ []) × All (λ y. y < 7) (1 ∷ 4 ∷ 6 ∷ []))
sorted_unique_iff_example = sorted_unique_iff (1 ∷ 4 ∷ 6 ∷ []) 7
