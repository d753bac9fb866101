-- ===== src/Node.antt =====
-- node/: the plugin's own node.
pub mod Peers
pub mod Store
pub mod State
pub mod Payments
pub mod Ledger
pub mod Instance
pub mod Files
pub mod Cron
pub mod Learned
pub mod Stats
pub mod Sockets
pub mod Options
pub mod Init
pub mod Control
pub mod Life
pub mod PeerLaws
mod Examples
mod CronExamples
