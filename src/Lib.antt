-- ===== src/Lib.antt =====
-- A model of the SiaPrime daemon's consensus code and its correctness theorems. Paths are those
-- of the repository.
--
-- encoding/ and types/ define the values of the protocol and their binary form. modules/consensus
-- keeps the consensus set in a bolt database: a block's transactions are checked against it
-- (validtransaction.go), applied to it one after another while the changes are recorded as diffs
-- (applytransaction.go), maintenance follows the transactions (maintenance.go), and the diffs of
-- a block are later applied again or reverted (diffs.go) when the chain forks (fork.go). accept.go
-- checks new blocks, adds them to the tree of blocks, moves the chain to a heavier fork, and appends
-- what was reverted and applied to the log of changes (changelog.go). difficulty.go and
-- processedblock.go set the targets of blocks and compare the weights of chains.
-- modules/renter/hostdb/hosttree is the tree from which a renter draws hosts by weight; it works
-- on its own, with a weight function and a resolver that the host database gives it.
--
-- The files:
--   Prelude: shared names, tests on numbers, lists, and numbers as bytes.
--   Encoding/Integers: encoding/integers.go. Encoding/Decoder: `decHelper` of types/encoding.go,
--     with the limits of encoding/marshal.go; Encoding/Decoder/Laws: rules for what decoders
--     read.
--   Types/Data: the structs of types/. Types/Network: the constants that a release chooses, and
--     arithmetic that wraps at 2^64. Types/Currency: types/currency.go and the contract tax.
--   Types/Subsidy: the block rewards of types/block.go; Types/Subsidy/Circulation: the coin
--     count.
--   Types/Marshal/Encode, Decode, Size, Currency: MarshalSia, UnmarshalSia and MarshalSiaSize of
--     types/encoding.go; Types/Marshal/RoundTrip and Types/Marshal/Layout: theorems on them.
--   Types/Ids: the ids of types/transactions.go, types/filecontracts.go and types/block.go.
--   Types/CoveredFields: validCoveredFields of types/signatures.go. Types/Sums:
--     SiacoinOutputSum.
--   Types/Outcome and Types/Validity: types/validtransaction.go. Types/Target: types/target.go.
--   Consensus/Bolt: the interface of the database, and an implementation as association lists
--     for the examples. Consensus/Data: the diffs, processed blocks, and the state, a field for
--     each bucket.
--   Prelude/Fallible and Consensus/Panic: code that panics, and the loops. Prelude/Int: int64.
--   Consensus/Database: consensusdb.go.
--   Consensus/Diffs: diffs.go; its children hold the theorems on undoing diffs.
--   Consensus/Apply: applytransaction.go. Consensus/Validity: validtransaction.go.
--     Consensus/Blocks: block_validation.go. Consensus/Maintenance: maintenance.go.
--     Consensus/Generate: `generateAndApplyDiff` of diffs.go. Consensus/Difficulty:
--     difficulty.go and processedblock.go. Consensus/Rules: block_rules.go. Consensus/Fork:
--     fork.go; its children are theorems on the way to a fork, on reverting, and on errors.
--     Consensus/ChangeLog: changelog.go. Consensus/Headers and Consensus/Accept: accept.go;
--     Accept/Tip, Changes and Loop are theorems on the current block.
--   HostTree/Tree: the nodes of hosttree.go. HostTree/Hosts: its map and its operations.
--     HostTree/Select: addressfilter.go and `SelectRandom`. The other children are theorems:
--     Weights and Places on the nodes, Picks and Draws on what a weight draws, Good and Map on
--     the operations, and Parts, Chosen, Drawn and Selected on `SelectRandom`.
--   Types/Tests, Consensus/Tests and HostTree/Tests: runs at concrete values.
--
-- Conventions. A hash or an id is the number that its 32 bytes spell, a currency a number, a
-- uint64 a number below 2^64 with the wrap-around written out. Error returns are values: `none`
-- is a nil error in an Outcome or Failure. A panic of a release build is `none` of an Option that
-- holds a result; the sanity checks of debug builds are left out. A bucket holds decoded values,
-- which the round trips of the encoding justify. Loops are recursion on the list; the two loops
-- of a currency's encoding that have no list run on fuel, the value itself for the count of its
-- words, which is enough since each word divides it by 2^64. The loops of fork.go have as many
-- rounds as the height of the block, or of the path, plus one: each round goes one block down.
--
-- Parameters: the database (bolt), blake2b, Merkle trees and ed25519 (Types/Ids), what
-- `validSignatures` returns (types/signatures.go), of which only the check of covered fields is
-- modelled, and for the host tree the resolver and the random numbers. Also not modelled are the
-- relaying of blocks and the waiting for future ones (accept.go), the modules around the consensus
-- set, and everything that is input and output, display, or vendored.
pub mod Prelude
pub mod Encoding
pub mod Types
pub mod Consensus
pub mod HostTree
