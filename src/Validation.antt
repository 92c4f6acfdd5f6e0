-- ===== src/Validation.antt =====
-- src/consensus/validation.rs: from the transactions of a block to the block. RandomX and the clock are
-- arguments, as the source's traits `PowVerifier` and `TimeSource` are: a function that gives a hash or
-- fails, and the present time.
pub mod Apply
pub mod Seed
pub mod Header
pub mod Shares
pub mod Whole
pub mod Money
pub mod Accepted
