-- ===== src/Consensus.antt =====
-- modules/consensus: the consensus set.
mod Tests
pub mod Bolt
pub mod Data
pub mod Panic
pub mod Database
pub mod Diffs
pub mod Apply
pub mod Maintenance
pub mod Validity
pub mod Generate
pub mod Fork
pub mod ChangeLog
pub mod Headers
pub mod Accept
pub mod Blocks
pub mod Difficulty
pub mod Rules
