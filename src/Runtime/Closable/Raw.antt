-- ===== src/Runtime/Closable/Raw.antt =====
-- The terminal states of runtime/src/closable_mailbox.rs.
use rust_jsi.Base.{ℕ}

abbrev pub normal : ℕ
normal = 0

abbrev pub terminal_pending : ℕ
terminal_pending = 1

abbrev pub terminal_active : ℕ
terminal_active = 2

abbrev pub terminal_closed : ℕ
terminal_closed = 3
