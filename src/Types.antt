-- ===== src/Types.antt =====
-- src/consensus/types.rs: the consensus objects, their encodings and identifiers. A type of the
-- source is a record here, and its methods are the module of its name.
pub mod Transaction
pub mod RewardClaim
pub mod BlockHeader
pub mod BlockTemplate
pub mod Workshare
pub mod Witness
pub mod Block
pub mod Merkle
pub mod Equality
pub mod Wire
