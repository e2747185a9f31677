-- ===== src/Ipc.antt =====
-- The protocol between the daemon and its clients: src/ipc.
pub mod Framing
pub mod Chunks
pub mod Cut
pub mod Frames
pub mod Protocol
pub mod ServerMessages
pub mod Accepted
pub mod ClientTypes
pub mod ServerTypes
mod Tests
mod MessageTests
