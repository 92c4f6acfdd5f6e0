-- ===== src/Network.antt =====
-- src/p2p.rs: the messages between peers, their frames, the handshake's greeting and the limit on a
-- peer's rate. The sockets that carry them are not modelled.
pub mod ObjectKind
pub mod Hello
pub mod WireMessage
pub mod Budget
pub mod Greeting
pub mod Urls
pub mod Messages
pub mod Frames
pub mod Canonical
pub mod Handshake
