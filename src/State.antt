-- ===== src/State.antt =====
-- src/consensus/state.rs: accounts, pending rewards and the sparse Merkle tree that commits to them.
pub mod Tree
pub mod Ledger
pub mod Supply
