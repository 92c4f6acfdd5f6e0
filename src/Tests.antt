-- ===== src/Tests.antt =====
-- Concrete runs: each theorem about the program, applied where its hypotheses hold.
pub mod Sample
mod Schedules
mod Ledgers
mod Blocks
mod Chains
mod Wires
mod Pools
mod Messages
mod Shares
mod Nodes
