-- ===== src/Rebalance.antt =====
-- rebalance/: one rebalance of an amount between two channels.
pub mod Params
pub mod Attempt
pub mod Circle
pub mod Run
pub mod Outcomes
pub mod Total
pub mod Commands
pub mod Parallel
pub mod SamePeer
pub mod Stopped
pub mod Fixture
mod Examples
