-- ===== src/Consensus/Database.antt =====
-- modules/consensus/consensusdb.go, as a release build runs it: the sanity checks of debug builds
-- are left out, and the errors that only they look at are ignored. A function takes the buckets
-- that it touches and returns what they become.
use sia_prime.Prelude.{ltb, ◌==◌, if◌then◌else◌, Bool, true, false, ◌&&◌, Option, none, some}
use sia_prime.Types.Data.{Hash, BlockHeight, SiacoinOutput, SiafundOutput, FileContract}
use sia_prime.Types.Network.{add64, sub64}
use sia_prime.Consensus.Bolt.{Bolt}
use sia_prime.Consensus.Data.{ProcessedBlock, Contracts, State}
use sia_prime.Consensus.Panic.{◌>>=◌, pure}

-- The bytes of `devAddr`.
abbrev pub dev_addr : Hash
dev_addr = 110113049689895740606836408414668123286118132322512752645122174430061399425203

module _ (db : Bolt) where
  unfoldable pub get_path : BlockHeight → State db → Option Hash
  get_path height s = db.get height s.block_path

  -- A missing entry is the zero id: only debug builds look at the error.
  unfoldable pub current_block_id : State db → Hash
  unfolding get_path
  current_block_id s = elim (get_path s.block_height s) [ none ↦ 0 | some id ↦ id ]

  unfoldable pub get_block_map : Hash → State db → Option ProcessedBlock
  get_block_map id s = db.get id s.block_map

  unfoldable pub current_processed_block : State db → Option ProcessedBlock
  current_processed_block s = get_block_map (current_block_id s) s

  unfoldable pub add_block_map : Hash → ProcessedBlock → State db → State db
  add_block_map id pb s = record s { block_map = db.put id pb s.block_map }

  unfoldable pub push_path : Hash → State db → State db
  push_path bid s = record s {
    block_height = add64 s.block_height 1;
    block_path = db.put (add64 s.block_height 1) bid s.block_path;
  }

  unfoldable pub pop_path : State db → State db
  pop_path s = record s {
    block_height = sub64 s.block_height 1;
    block_path = db.delete s.block_height s.block_path;
  }

  unfoldable pub is_siacoin_output : Hash → db.Bucket SiacoinOutput → Bool
  is_siacoin_output id b = elim (db.get id b) [ none ↦ false | some sco ↦ true ]

  -- `none` is errNilItem.
  unfoldable pub get_siacoin_output : Hash → db.Bucket SiacoinOutput → Option SiacoinOutput
  get_siacoin_output id b = db.get id b

  unfoldable pub add_siacoin_output :
      Hash → SiacoinOutput → db.Bucket SiacoinOutput → db.Bucket SiacoinOutput
  add_siacoin_output id sco b = db.put id sco b

  unfoldable pub remove_siacoin_output : Hash → db.Bucket SiacoinOutput → db.Bucket SiacoinOutput
  remove_siacoin_output id b = db.delete id b

  unfoldable pub get_file_contract : Hash → Contracts db → Option FileContract
  get_file_contract id c = db.get id c.file_contracts

  -- `CreateBucketIfNotExists`
  unfoldable pub bucket_or_empty : {V : Type 0} → Option (db.Bucket V) → db.Bucket V
  bucket_or_empty none = db.empty
  bucket_or_empty (some b) = b

  unfoldable pub add_file_contract : Hash → FileContract → Contracts db → Contracts db
  add_file_contract id fc c = record {
    file_contracts = db.put id fc c.file_contracts;
    expirations =
        db.put fc.window_end (db.put id tt (bucket_or_empty (db.get fc.window_end c.expirations)))
          c.expirations;
  }

  -- A panic without the contract, whose nil bytes are sliced, without the bucket of its expiration
  -- height, or without the entry there.
  unfoldable pub remove_file_contract : Hash → Contracts db → Option (Contracts db)
  remove_file_contract id c = do
    fc ← db.get id c.file_contracts
    bucket ← db.get fc.window_end c.expirations
    _ ← db.get id bucket
    pure (record {
      file_contracts = db.delete id c.file_contracts;
      expirations = db.put fc.window_end (db.delete id bucket) c.expirations;
    })

  -- The siafunds of the last genesis address are the developers' after block 10,000.
  unfoldable pub get_siafund_output :
      Hash → BlockHeight → Hash → db.Bucket SiafundOutput → Option SiafundOutput
  get_siafund_output last_genesis_hash height id b = do
    sfo ← db.get id b
    pure (
        if (sfo.unlock_hash == last_genesis_hash) && ltb 10000 height
        then record sfo { unlock_hash = dev_addr }
        else sfo)

  unfoldable pub add_siafund_output :
      Hash → SiafundOutput → db.Bucket SiafundOutput → db.Bucket SiafundOutput
  add_siafund_output id sfo b = db.put id sfo b

  unfoldable pub remove_siafund_output : Hash → db.Bucket SiafundOutput → db.Bucket SiafundOutput
  remove_siafund_output id b = db.delete id b

  abbrev pub DelayedOutputs : Type 0
  DelayedOutputs = db.Bucket (db.Bucket SiacoinOutput)

  -- A panic where the height has no bucket.
  unfoldable pub add_dsco :
      BlockHeight → Hash → SiacoinOutput → DelayedOutputs → Option DelayedOutputs
  add_dsco bh id sco d = do bucket ← db.get bh d; pure (db.put bh (db.put id sco bucket) d)

  unfoldable pub remove_dsco : BlockHeight → Hash → DelayedOutputs → Option DelayedOutputs
  remove_dsco bh id d = do bucket ← db.get bh d; pure (db.put bh (db.delete id bucket) d)

  -- `CreateBucket` leaves a bucket that exists as it is, with an error that is ignored.
  unfoldable pub create_dsco_bucket : BlockHeight → DelayedOutputs → DelayedOutputs
  create_dsco_bucket bh d = elim (db.get bh d) [ none ↦ db.put bh db.empty d | some b ↦ d ]

  unfoldable pub delete_dsco_bucket : BlockHeight → DelayedOutputs → DelayedOutputs
  delete_dsco_bucket bh d = db.delete bh d
