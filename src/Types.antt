-- ===== src/Types.antt =====
-- The package `types`: currency, the transaction and block data, the block subsidy, the identifiers
-- and the rules that a transaction obeys on its own.
mod Tests
pub mod Data
pub mod Currency
pub mod Network
pub mod Subsidy
pub mod Marshal
pub mod Outcome
pub mod Validity
pub mod Sums
pub mod Ids
pub mod CoveredFields
pub mod Target
