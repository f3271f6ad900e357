-- ===== src/Testkit.antt =====
-- The crate `rustjsi-testkit` (testkit/src).
pub mod WorkQueue
pub mod Lifecycle
pub mod SlotMap
pub mod Model
