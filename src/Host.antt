-- ===== src/Host.antt =====
-- host/src: identities, the entry gate, the registration of drain tasks, and scheduled work.
pub mod Identity
pub mod Registration
pub mod Entry
pub mod Work
pub mod WorkMailbox
pub mod WorkOwner
