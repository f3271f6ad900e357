-- ===== src/Runtime/Ingress/Laws.antt =====
-- runtime/src/ingress.rs: the programs beside the gate's specification, alone and under interference.
use rust_jsi.Runtime.Ingress.Raw
use rust_jsi.Base.{◌≤◌, ◌+◌, ◌≢◌, ◌⊎◌, ok, err}
use rust_jsi.Base.{ℕ, ◌≡◌, ◌<◌, List, Outcome, returned, refl, Result, arith}
use rust_jsi.Runtime.Atomic.{Program, halt, call, run, Event}
use rust_jsi.Runtime.Atomic.Linear.{IsLinear, Commits, run-Commits}
use rust_jsi.Runtime.Atomic.Alone.{undisturbed, EndsWithin, run-call}
use rust_jsi.Runtime.Ingress.{
  IngressState, IngressReserveError, IngressClose, IngressSealError, state, in_flight_reservations,
  reserve, begin_close, try_seal, settle_reservation, state_program, in_flight_program,
  reserve_program, begin_close_program, try_seal_program, settle_program,
}
use rust_jsi.Runtime.Ingress.Spec
use rust_jsi.Runtime.Ingress.Spec.{Gate, IsValid, raw}

-- The methods of `IngressGate` and of its permit, with what each answers.
pub data Operation : Type 0 where
  observe count admit shut seal settle : Operation

abbrev pub Answer : Operation → Type 0
Answer Operation.observe = IngressState
Answer Operation.count = ℕ
Answer Operation.admit = Result (Unit {0}) IngressReserveError
Answer Operation.shut = IngressClose
Answer Operation.seal = Result IngressState IngressSealError
Answer Operation.settle = Unit {0}

abbrev pub program : (op : Operation) → Program (Answer op)
program Operation.observe = state_program
program Operation.count = in_flight_program
program Operation.admit = reserve_program
program Operation.shut = begin_close_program
program Operation.seal = try_seal_program
program Operation.settle = settle_program

abbrev pub machine : (op : Operation) → Gate → Gate × Answer op
machine Operation.observe g = (g, g.phase)
machine Operation.count g = (g, g.in_flight)
machine Operation.admit g = Spec.reserve g
machine Operation.shut g = Spec.begin_close g
machine Operation.seal g = Spec.try_seal g
machine Operation.settle g = (Spec.settle g, tt)

-- A permit is settled while its reservation is in flight; the other methods are always legal.
abbrev pub IsLegal : Operation → Gate → Type 0
IsLegal Operation.settle g = 0 < g.in_flight
IsLegal _ g = Unit

machine-IsValid : (op : Operation) (g : Gate) → IsValid g → IsLegal op g → IsValid (machine op g).0
machine-IsValid Operation.settle g v l = ground arith
machine-IsValid Operation.observe g v l = v
machine-IsValid Operation.count g v l = v
machine-IsValid Operation.admit g v l = ground arith
machine-IsValid Operation.shut g v l = ground arith
machine-IsValid Operation.seal g v l = ground arith

call-machine :
    (op : Operation) (g : Gate)
    → IsValid g
    → IsLegal op g
    → call (program op) (raw g) ≡ (raw (machine op g).0, returned (machine op g).1)
unfolding state in_flight_reservations reserve begin_close try_seal settle_reservation
call-machine Operation.observe g v l = ground arith
call-machine Operation.count g v l = ground arith
call-machine Operation.admit g v l = ground arith
call-machine Operation.shut g v l = ground arith
call-machine Operation.seal g v l = ground arith
call-machine Operation.settle g v l = ground arith

program-IsLinear : (op : Operation) → IsLinear (call (program op)) (program op)
unfolding state in_flight_reservations reserve begin_close try_seal settle_reservation
program-IsLinear Operation.observe = λ m. ground arith
program-IsLinear Operation.count = λ m. ground arith
program-IsLinear Operation.admit = λ m. ground arith
program-IsLinear Operation.shut = λ m. ground arith
program-IsLinear Operation.seal = λ m. ground arith
program-IsLinear Operation.settle = λ m. (_, refl, refl)

-- Each method, called alone at a valid gate (a settlement with a reservation in flight), leaves and answers what the gate's specification says:
-- it does not panic, its arithmetic does not wrap, and the gate stays valid.
pub gate_refines :
    (op : Operation) (g : Gate)
    → IsValid g
    → IsLegal op g
    → (call (program op) (raw g) ≡ (raw (machine op g).0, returned (machine op g).1))
      × IsValid (machine op g).0
gate_refines op g v l = (call-machine op g v l, machine-IsValid op g v l)

-- Under any schedule, with any changes by other threads and any spurious failures, a method that
-- ends has changed nothing but by its last access, which is the method's call at the word as it
-- stands there, with the same outcome.
pub gate_linearizable :
    (op : Operation) (m : ℕ) (es : List Event) (o : Outcome (Answer op))
    → (run (program op) (program op) m es).0 ≡ halt o
    → Commits (call (program op)) o (run (program op) (program op) m es).2
gate_linearizable op m es o ends =
    run-Commits (call (program op)) (program op) (program-IsLinear op) (program op)
      (program-IsLinear op) m es o ends

program-EndsWithin : (op : Operation) (g : Gate) → IsValid g → EndsWithin 2 (program op) (raw g)
unfolding state in_flight_reservations reserve begin_close try_seal settle_reservation
program-EndsWithin Operation.observe g v = ground arith
program-EndsWithin Operation.count g v = ground arith
program-EndsWithin Operation.admit g v = ground arith
program-EndsWithin Operation.shut g v = ground arith
program-EndsWithin Operation.seal g v = ground arith
program-EndsWithin Operation.settle g v = ground arith

-- At a valid gate, and for a settlement with a reservation in flight, a method that nobody disturbs ends within two accesses, as the specification says.
pub gate_ends :
    (op : Operation) (g : Gate)
    → IsValid g
    → IsLegal op g
    → ((run (program op) (program op) (raw g) (undisturbed 2)).0 ≡ halt (returned (machine op g).1))
      × ((run (program op) (program op) (raw g) (undisturbed 2)).1 ≡ raw (machine op g).0)
gate_ends op g v l =
    rw (call-machine op g v l) at
      (run-call (program op) (program op) 2 (raw g) (program-EndsWithin op g v))

-- A reservation can be granted.
abbrev pub Admits : Gate → Type 0
Admits g = (g.phase ≡ IngressState.open_gate) × (g.in_flight < Raw.reservation_mask)

abbrev pub Refuses : Gate → Type 0
Refuses g = (g.phase ≢ IngressState.open_gate) ⊎ (g.in_flight ≡ Raw.reservation_mask)

abbrev refusal_in : IngressState → IngressReserveError
refusal_in IngressState.open_gate = IngressReserveError.reservation_space_exhausted
refusal_in s = IngressReserveError.not_open s

abbrev pub refusal : Gate → IngressReserveError
refusal g = refusal_in g.phase

pub reserve-cases :
    (g : Gate)
    → g.in_flight ≤ Raw.reservation_mask
    → (Admits g × (reserve (raw g) ≡ (raw g + 1, returned (ok tt))))
      ⊎ (Refuses g × (reserve (raw g) ≡ (raw g, returned (err (refusal g)))))
unfolding reserve
reserve-cases g h = ground arith

pub settle-reserve :
    (g : Gate)
    → g.in_flight < Raw.reservation_mask
    → settle_reservation (raw g + 1) ≡ (raw g, returned tt)
unfolding settle_reservation
settle-reserve g h = ground arith

pub try_seal_lem :
    (g : Gate)
    → IsValid g
    → try_seal (raw g) ≡ (raw (Spec.try_seal g).0, returned (Spec.try_seal g).1)
unfolding try_seal
try_seal_lem g v = (gate_refines Operation.seal g v tt).0

pub begin_close_lem :
    (g : Gate)
    → IsValid g
    → begin_close (raw g) ≡ (raw (Spec.begin_close g).0, returned (Spec.begin_close g).1)
unfolding begin_close
begin_close_lem g v = (gate_refines Operation.shut g v tt).0

pub begin_close-IsValid : (g : Gate) → IsValid g → IsValid (Spec.begin_close g).0
begin_close-IsValid g v = machine-IsValid Operation.shut g v tt
