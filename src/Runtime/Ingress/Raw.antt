-- ===== src/Runtime/Ingress/Raw.antt =====
-- The constants of runtime/src/ingress.rs.
use rust_jsi.Base.{ℕ, ◌-◌, ◌*◌, ◌^◌}

abbrev pub usize_bits : ℕ
usize_bits = 64

abbrev pub phase_bits : ℕ
phase_bits = 2

abbrev pub phase_shift : ℕ
phase_shift = usize_bits - phase_bits

abbrev pub reservation_mask : ℕ
reservation_mask = 2 ^ phase_shift - 1

abbrev pub open_gate : ℕ
open_gate = 0

abbrev pub closing : ℕ
closing = 2 ^ phase_shift

abbrev pub sealed : ℕ
sealed = 2 * 2 ^ phase_shift
