-- ===== src/Rewards/Exact.antt =====
-- The largest-remainder method pays out the pool exactly.
pub mod Distribute
pub mod Sorting
pub mod Totals
pub mod Allocation
pub mod Success
