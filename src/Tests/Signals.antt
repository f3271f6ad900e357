-- ===== src/Tests/Signals.antt =====
-- runtime/src/drain.rs, runtime/src/ingress.rs and the terminal word, at concrete words and schedules.
use rust_jsi.Base.{◌≡◌, refl, true, false, List, [], ◌∷◌, returned, ok, arith}
use rust_jsi.Runtime.Atomic.{halt, run, call, access, Event, mine, theirs}
use rust_jsi.Runtime.Atomic.Linear.{Commits}
use rust_jsi.Runtime.Atomic.Alone.{undisturbed}
use rust_jsi.Runtime.Drain.{
  DrainState, DrainRequest, DrainAfter, request_program, finish_drain_program,
}
use rust_jsi.Runtime.Drain.Laws as Signal
use rust_jsi.Runtime.Drain.Laws.{call-machine, signal_linearizable, signal_ends}
use rust_jsi.Runtime.Ingress
use rust_jsi.Runtime.Ingress.{
  IngressState, IngressClose, reserve_program, begin_close_program, try_seal_program,
}
use rust_jsi.Runtime.Ingress.Spec.{Gate, IsValid, raw}
use rust_jsi.Runtime.Ingress.Laws as Gating
use rust_jsi.Runtime.Ingress.Laws.{gate_refines, gate_linearizable, gate_ends}
use rust_jsi.Runtime.Closable.Terminal.{claim_program}
use rust_jsi.Runtime.Closable.Terminal.Laws as Terminals
use rust_jsi.Runtime.Closable.Terminal.Laws.{terminal_linearizable}

call-machine_example : call finish_drain_program 3 ≡ (1, returned DrainAfter.pending)
call-machine_example = call-machine Signal.Operation.finish DrainState.draining_with_pending

-- A request that loses its first round to another producer, and joins it in the second.
abbrev beaten : List Event
beaten = mine false ∷ theirs 1 ∷ mine false ∷ mine false ∷ mine false ∷ []

beaten_coalesces :
    (run request_program request_program 0 beaten).0 ≡ halt (returned DrainRequest.coalesced)
unfolding run access request_program
beaten_coalesces = refl

signal_linearizable_example :
    Commits
      (call request_program)
      (returned DrainRequest.coalesced)
      (run request_program request_program 0 beaten).2
signal_linearizable_example =
    signal_linearizable Signal.Operation.ask 0 beaten (returned DrainRequest.coalesced)
      beaten_coalesces

signal_ends_example :
    ((run request_program request_program 2 (undisturbed 2)).0
      ≡ halt (returned DrainRequest.coalesced))
    × ((run request_program request_program 2 (undisturbed 2)).1 ≡ 3)
signal_ends_example = signal_ends Signal.Operation.ask DrainState.draining

-- Two producers within a gate that is closing.
abbrev two_inside : Gate
two_inside = record { phase = IngressState.closing; in_flight = 2 }

abbrev two_admitted : Gate
two_admitted = record { phase = IngressState.open_gate; in_flight = 2 }

two_admitted-IsValid : IsValid two_admitted
two_admitted-IsValid = ground arith

gate_refines_example :
    (call begin_close_program (raw two_admitted)
      ≡ (raw two_inside, returned (IngressClose.started 2)))
    × IsValid two_inside
gate_refines_example = gate_refines Gating.Operation.shut two_admitted two_admitted-IsValid tt

-- A close whose first exchange fails for no reason.
abbrev spurious : List Event
spurious = mine false ∷ mine true ∷ mine false ∷ mine false ∷ mine false ∷ []

spurious_closes :
    (run begin_close_program begin_close_program 2 spurious).0
    ≡ halt (returned (IngressClose.started 2))
unfolding run access begin_close_program Ingress.state_from_raw
spurious_closes = refl

gate_linearizable_example :
    Commits
      (call begin_close_program)
      (returned (IngressClose.started 2))
      (run begin_close_program begin_close_program 2 spurious).2
gate_linearizable_example =
    gate_linearizable Gating.Operation.shut 2 spurious (returned (IngressClose.started 2))
      spurious_closes

-- Two owners claim at once: the other is first, and is given up before this one's next round.
abbrev overtaken : List Event
overtaken =
    mine false
    ∷ theirs 2
    ∷ mine false
    ∷ mine false
    ∷ theirs 1
    ∷ mine false
    ∷ mine false
    ∷ mine false
    ∷ []

overtaken_claims : (run claim_program claim_program 0 overtaken).0 ≡ halt (returned (ok tt))
unfolding run access claim_program
overtaken_claims = refl

terminal_linearizable_example :
    Commits (call claim_program) (returned (ok tt)) (run claim_program claim_program 0 overtaken).2
terminal_linearizable_example =
    terminal_linearizable Terminals.Operation.claim 0 overtaken (returned (ok tt)) overtaken_claims
