-- ===== src/Runtime/Ingress.antt =====
-- runtime/src/ingress.rs: the producer-admission gate. The `AtomicUsize` holds the phase in its two
-- high bits and the number of reservations in flight below them; `usize` has 64 bits.
pub mod Raw
pub mod Spec
pub mod Laws
use rust_jsi.Base.{
  ℕ, ◌+◌, ◌-◌, ◌/◌, ◌%◌, ◌^◌, if◌then◌else◌, ◌==◌, Outcome, returned, panicked, Method, Result, ok,
  err,
}
use rust_jsi.Runtime.Atomic.{
  Program, halt, load, restart, compare_exchange_weak, fetch_update, return, panic, call,
}
use Raw

pub data IngressState : Type 0 where
  open_gate closing sealed : IngressState

pub data IngressReserveError : Type 0 where
  not_open : IngressState → IngressReserveError
  reservation_space_exhausted : IngressReserveError

pub data IngressClose : Type 0 where
  started : (in_flight_reservations : ℕ) → IngressClose
  already_closing : (in_flight_reservations : ℕ) → IngressClose
  already_sealed : IngressClose

pub data IngressSealError : Type 0 where
  still_open : IngressSealError
  reservations_remain : ℕ → IngressSealError

-- `value & RESERVATION_MASK`.
abbrev pub reservation_count : ℕ → ℕ
reservation_count value = value % (Raw.reservation_mask + 1)

unfoldable pub state_from_raw : ℕ → Outcome IngressState
state_from_raw value =
    if value / 2 ^ Raw.phase_shift == 0
    then returned IngressState.open_gate
    else if value / 2 ^ Raw.phase_shift == 1
    then returned IngressState.closing
    else if value / 2 ^ Raw.phase_shift == 2
    then returned IngressState.sealed
    else panicked

-- `IngressGate::new`.
abbrev pub new : ℕ
new = Raw.open_gate

-- `match state_from_raw(current)`, in a method's loop.
abbrev by_state : {R : Type 0} → Outcome IngressState → (IngressState → Program R) → Program R
by_state (returned s) f = f s
by_state panicked f = panic

unfoldable pub state_program : Program IngressState
state_program = load λ current. halt (state_from_raw current)

unfoldable pub in_flight_program : Program ℕ
in_flight_program = load λ current. return (reservation_count current)

abbrev reserve_at : ℕ → IngressState → Program (Result (Unit {0}) IngressReserveError)
reserve_at current IngressState.open_gate =
    if reservation_count current == Raw.reservation_mask
    then return (err IngressReserveError.reservation_space_exhausted)
    else compare_exchange_weak current (current + 1) (return (ok tt)) restart
reserve_at current s = return (err (IngressReserveError.not_open s))

-- The `IngressPermit` of `ok` is the right to call `settle_reservation` once.
unfoldable pub reserve_program : Program (Result (Unit {0}) IngressReserveError)
reserve_program = load λ current. by_state (state_from_raw current) (reserve_at current)

-- The bits of `CLOSING` and of a count do not meet, so `|` is a sum.
abbrev begin_close_at : ℕ → IngressState → Program IngressClose
begin_close_at current IngressState.open_gate =
    compare_exchange_weak current (Raw.closing + reservation_count current)
      (return (IngressClose.started (reservation_count current))) restart
begin_close_at current IngressState.closing =
    return (IngressClose.already_closing (reservation_count current))
begin_close_at current IngressState.sealed = return IngressClose.already_sealed

unfoldable pub begin_close_program : Program IngressClose
begin_close_program = load λ current. by_state (state_from_raw current) (begin_close_at current)

abbrev try_seal_at : ℕ → IngressState → Program (Result IngressState IngressSealError)
try_seal_at current IngressState.open_gate = return (err IngressSealError.still_open)
try_seal_at current IngressState.closing =
    if reservation_count current == 0
    then compare_exchange_weak current Raw.sealed (return (ok IngressState.sealed)) restart
    else return (err (IngressSealError.reservations_remain (reservation_count current)))
try_seal_at current IngressState.sealed = return (ok IngressState.sealed)

unfoldable pub try_seal_program : Program (Result IngressState IngressSealError)
try_seal_program = load λ current. by_state (state_from_raw current) (try_seal_at current)

-- `fetch_sub` wraps; the `debug_assert` on the previous value is a panic.
unfoldable pub settle_program : Program (Unit {0})
settle_program =
    fetch_update (λ current. (current + 2 ^ Raw.usize_bits - 1) % 2 ^ Raw.usize_bits)
      λ previous. halt (if reservation_count previous == 0 then panicked else returned tt)

unfoldable pub state : Method ℕ IngressState
unfolding call state_program state_from_raw
state = call state_program

unfoldable pub in_flight_reservations : Method ℕ ℕ
unfolding call in_flight_program
in_flight_reservations = call in_flight_program

unfoldable pub reserve : Method ℕ (Result (Unit {0}) IngressReserveError)
unfolding call reserve_program state_from_raw
reserve = call reserve_program

unfoldable pub begin_close : Method ℕ IngressClose
unfolding call begin_close_program state_from_raw
begin_close = call begin_close_program

unfoldable pub try_seal : Method ℕ (Result IngressState IngressSealError)
unfolding call try_seal_program state_from_raw
try_seal = call try_seal_program

unfoldable pub settle_reservation : Method ℕ (Unit {0})
unfolding call settle_program
settle_reservation = call settle_program
