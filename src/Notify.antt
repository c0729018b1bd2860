-- ===== src/Notify.antt =====
-- src/notify.rs: the primitives on which threads wait.
pub mod Parker
pub mod WaiterList
pub mod Park
mod Tests
