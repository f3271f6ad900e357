-- ===== src/Runtime/Drain/Raw.antt =====
-- The states of the `AtomicU8` of runtime/src/drain.rs.
use rust_jsi.Base.{ℕ}

abbrev pub idle : ℕ
idle = 0

abbrev pub pending : ℕ
pending = 1

abbrev pub draining : ℕ
draining = 2

abbrev pub draining_pending : ℕ
draining_pending = 3

abbrev pub closed : ℕ
closed = 4
