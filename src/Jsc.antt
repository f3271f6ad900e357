-- ===== src/Jsc.antt =====
-- The crate `rustjsi-backend-jsc` (backend-jsc/src).
pub mod Errors
pub mod Generations
pub mod Roots
pub mod Budget
pub mod LocalRoots
pub mod Scope
pub mod Ledger
pub mod CallLimits
pub mod Messages
pub mod Finalizers
