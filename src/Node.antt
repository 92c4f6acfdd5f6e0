-- ===== src/Node.antt =====
-- src/node.rs: the state that a node keeps beside the chain, and what it does with blocks, templates,
-- workshares and messages. The locks are taken one after the other within a call, so a call is a
-- function of the whole state.
pub mod WorksharePool
pub mod State
pub mod Blocks
pub mod Submissions
pub mod Pending
pub mod Peers
pub mod Issuance
pub mod Locator
pub mod Headers
pub mod Messages
pub mod Invariant
