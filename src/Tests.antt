-- ===== src/Tests.antt =====
-- The theorems at concrete inputs.
mod Signals
mod Mailboxes
mod Closables
mod Terminals
mod Hosts
mod Works
mod Queues
mod Roots
mod Lifecycles
mod Backends
mod Scopes
mod Models
mod Messages
mod Finalizers
