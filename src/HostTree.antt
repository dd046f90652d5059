-- ===== src/HostTree.antt =====
-- modules/renter/hostdb/hosttree: the weighted tree from which the renter draws hosts.
pub mod Tree
pub mod Weights
pub mod Places
pub mod Picks
pub mod Draws
pub mod Hosts
pub mod Good
pub mod Map
pub mod Select
pub mod Parts
pub mod Chosen
pub mod Drawn
pub mod Selected
mod Tests
