-- ===== src/Runtime.antt =====
-- The crate `rustjsi-runtime` (runtime/src).
pub mod Atomic
pub mod Drain
pub mod Ingress
pub mod Queue
pub mod Mailbox
pub mod Closable
