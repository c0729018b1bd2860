-- ===== src/Spsc.antt =====
-- src/spsc.rs: the single-producer single-consumer ring.
pub mod Defs
pub mod Ops
pub mod State
pub mod Rules
pub mod Config
pub mod Sends
pub mod Receives
pub mod Drains
pub mod Blocks
pub mod Inv
pub mod System
pub mod Sound
pub mod Safety
pub mod Bounded
pub mod Progress
pub mod Construct
pub mod Release
pub mod Refine
pub mod Schedule
mod Tests
