-- ===== src/Mpsc.antt =====
-- The multi-producer ring of src/mpsc.rs.
pub mod Defs
pub mod SenderOps
pub mod ReceiverOps
pub mod Config
pub mod State
pub mod Rules
pub mod Sends
pub mod Receives
pub mod Drains
pub mod Waits
pub mod Blocks
pub mod Inv
pub mod System
pub mod Sound
pub mod Reachable
pub mod Safety
pub mod Delivery
pub mod Construct
pub mod Release
pub mod Progress
mod Schedule
mod Tests
