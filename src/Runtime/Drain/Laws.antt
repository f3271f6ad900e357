-- ===== src/Runtime/Drain/Laws.antt =====
-- runtime/src/drain.rs: the programs beside the five-state machine, alone and under interference.
use rust_jsi.Base.{ℕ, ◌≡◌, refl, List, Outcome, returned, arith}
use rust_jsi.Runtime.Atomic.{Program, halt, call, run, Event}
use rust_jsi.Runtime.Atomic.Linear.{IsLinear, Commits, run-Commits}
use rust_jsi.Runtime.Atomic.Alone.{undisturbed, EndsWithin, run-call}
use rust_jsi.Runtime.Drain.{
  DrainState, DrainRequest, DrainAcquire, DrainClose, DrainAfter, state, request, acquire, close,
  finish_drain, state_program, request_program, acquire_program, close_program,
  finish_drain_program,
}
use rust_jsi.Runtime.Drain.Spec
use rust_jsi.Runtime.Drain.Spec.{raw}

-- The methods of `DrainSignal`, with what each answers.
pub data Operation : Type 0 where
  observe ask take shut finish : Operation

abbrev pub Answer : Operation → Type 0
Answer Operation.observe = DrainState
Answer Operation.ask = DrainRequest
Answer Operation.take = DrainAcquire
Answer Operation.shut = DrainClose
Answer Operation.finish = DrainAfter

abbrev pub program : (op : Operation) → Program (Answer op)
program Operation.observe = state_program
program Operation.ask = request_program
program Operation.take = acquire_program
program Operation.shut = close_program
program Operation.finish = finish_drain_program

abbrev pub machine : (op : Operation) → DrainState → DrainState × Answer op
machine Operation.observe s = (s, s)
machine Operation.ask s = Spec.request s
machine Operation.take s = Spec.acquire s
machine Operation.shut s = Spec.close s
machine Operation.finish s = Spec.finish_drain s

-- Each method, called alone at a valid word, leaves and answers what the machine says; it never
-- panics, and the word stays valid.
pub call-machine :
    (op : Operation) (s : DrainState)
    → call (program op) (raw s) ≡ (raw (machine op s).0, returned (machine op s).1)
unfolding state request acquire close finish_drain
call-machine Operation.observe DrainState.idle = refl
call-machine Operation.observe _ = refl
call-machine Operation.ask DrainState.idle = refl
call-machine Operation.ask _ = refl
call-machine Operation.take DrainState.idle = refl
call-machine Operation.take _ = refl
call-machine Operation.shut DrainState.idle = refl
call-machine Operation.shut _ = refl
call-machine Operation.finish DrainState.idle = refl
call-machine Operation.finish _ = refl

program-IsLinear : (op : Operation) → IsLinear (call (program op)) (program op)
unfolding state request acquire close finish_drain
program-IsLinear Operation.observe = λ m. ground arith
program-IsLinear Operation.ask = λ m. ground arith
program-IsLinear Operation.take = λ m. ground arith
program-IsLinear Operation.shut = λ m. ground arith
program-IsLinear Operation.finish = λ m. ground arith

-- Under any schedule, with any changes by other threads and any spurious failures, a method that
-- ends has changed nothing but by its last access, which is the method's call at the word as it
-- stands there, with the same outcome.
pub signal_linearizable :
    (op : Operation) (m : ℕ) (es : List Event) (o : Outcome (Answer op))
    → (run (program op) (program op) m es).0 ≡ halt o
    → Commits (call (program op)) o (run (program op) (program op) m es).2
signal_linearizable op m es o ends =
    run-Commits (call (program op)) (program op) (program-IsLinear op) (program op)
      (program-IsLinear op) m es o ends

program-EndsWithin : (op : Operation) (s : DrainState) → EndsWithin 2 (program op) (raw s)
unfolding state request acquire close finish_drain
program-EndsWithin Operation.observe DrainState.idle = tt
program-EndsWithin Operation.observe _ = tt
program-EndsWithin Operation.ask DrainState.idle = tt
program-EndsWithin Operation.ask _ = tt
program-EndsWithin Operation.take DrainState.idle = tt
program-EndsWithin Operation.take _ = tt
program-EndsWithin Operation.shut DrainState.idle = tt
program-EndsWithin Operation.shut _ = tt
program-EndsWithin Operation.finish DrainState.idle = tt
program-EndsWithin Operation.finish _ = tt

-- At a valid word a method that nobody disturbs ends within two accesses, as the machine says.
pub signal_ends :
    (op : Operation) (s : DrainState)
    → ((run (program op) (program op) (raw s) (undisturbed 2)).0 ≡ halt (returned (machine op s).1))
      × ((run (program op) (program op) (raw s) (undisturbed 2)).1 ≡ raw (machine op s).0)
signal_ends op s =
    rw (call-machine op s) at
      (run-call (program op) (program op) 2 (raw s) (program-EndsWithin op s))
