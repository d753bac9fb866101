-- ===== src/Graph.antt =====
-- graph/: the channels of the network and the search for a route among them.
pub mod Htlc
pub mod Channel
pub mod Route
pub mod Network
pub mod Queue
pub mod Pathfinder
pub mod Examples
mod SearchExamples
