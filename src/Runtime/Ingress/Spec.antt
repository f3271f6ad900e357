-- ===== src/Runtime/Ingress/Spec.antt =====
-- What the gate promises: a phase, and how many reservations are in flight.
use rust_jsi.Base.{ℕ, zero, suc, ◌+◌, ◌-◌, ◌≤◌, ◌≡◌, ◌≢◌, ◌⊎◌, if◌then◌else◌, ◌==◌, Result, ok, err}
use rust_jsi.Runtime.Ingress.{IngressState, IngressReserveError, IngressClose, IngressSealError}
use rust_jsi.Runtime.Ingress.Raw

pub record Gate : Type 0 where
  pub phase : IngressState
  pub in_flight : ℕ

-- The gate counts in 62 bits, and nothing is in flight once it is sealed.
pub record IsValid (g : Gate) : Type 0 where
  pub bounded : g.in_flight ≤ Raw.reservation_mask
  pub settled : (g.phase ≢ IngressState.sealed) ⊎ (g.in_flight ≡ 0)

abbrev phase_bits : IngressState → ℕ
phase_bits IngressState.open_gate = Raw.open_gate
phase_bits IngressState.closing = Raw.closing
phase_bits IngressState.sealed = Raw.sealed

abbrev pub raw : Gate → ℕ
raw g = phase_bits g.phase + g.in_flight

abbrev reserve_in : IngressState → ℕ → Gate × Result (Unit {0}) IngressReserveError
reserve_in IngressState.open_gate n =
    if n == Raw.reservation_mask
    then (
      record { phase = IngressState.open_gate; in_flight = n },
      err IngressReserveError.reservation_space_exhausted,
    )
    else (record { phase = IngressState.open_gate; in_flight = n + 1 }, ok tt)
reserve_in s n = (record { phase = s; in_flight = n }, err (IngressReserveError.not_open s))

-- Granted while the gate is open and the count has room.
abbrev pub reserve : Gate → Gate × Result (Unit {0}) IngressReserveError
reserve g = reserve_in g.phase g.in_flight

abbrev begin_close_in : IngressState → ℕ → Gate × IngressClose
begin_close_in IngressState.open_gate n =
    (record { phase = IngressState.closing; in_flight = n }, IngressClose.started n)
begin_close_in IngressState.closing n =
    (record { phase = IngressState.closing; in_flight = n }, IngressClose.already_closing n)
begin_close_in IngressState.sealed n =
    (record { phase = IngressState.sealed; in_flight = n }, IngressClose.already_sealed)

abbrev pub begin_close : Gate → Gate × IngressClose
begin_close g = begin_close_in g.phase g.in_flight

abbrev try_seal_in : IngressState → ℕ → Gate × Result IngressState IngressSealError
try_seal_in IngressState.open_gate n =
    (record { phase = IngressState.open_gate; in_flight = n }, err IngressSealError.still_open)
try_seal_in IngressState.closing zero =
    (record { phase = IngressState.sealed; in_flight = 0 }, ok IngressState.sealed)
try_seal_in IngressState.closing (suc n) = (
  record { phase = IngressState.closing; in_flight = suc n },
  err (IngressSealError.reservations_remain (suc n)),
)
try_seal_in IngressState.sealed n =
    (record { phase = IngressState.sealed; in_flight = n }, ok IngressState.sealed)

-- Sealing waits for every reservation.
abbrev pub try_seal : Gate → Gate × Result IngressState IngressSealError
try_seal g = try_seal_in g.phase g.in_flight

-- A permit settles once, so a settlement has a reservation to settle.
abbrev pub settle : Gate → Gate
settle g = record g { in_flight = g.in_flight - 1 }
