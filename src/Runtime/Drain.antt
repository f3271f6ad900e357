-- ===== src/Runtime/Drain.antt =====
-- runtime/src/drain.rs: the coalescing signal for one future drain. Each method's `loop` is a
-- program over the `AtomicU8`; callers use the methods through `call`.
pub mod Raw
pub mod Spec
pub mod Laws
use rust_jsi.Base.{ℕ, if◌then◌else◌, ◌==◌, ◌||◌, Outcome, returned, panicked, Method}
use rust_jsi.Runtime.Atomic.{
  Program, halt, load, restart, compare_exchange_weak, return, panic, call,
}
use Raw

pub data DrainState : Type 0 where
  idle pending draining draining_with_pending closed : DrainState

pub data DrainRequest : Type 0 where
  scheduled coalesced closed : DrainRequest

-- The `DrainPermit` of `acquired` is the right to call `finish_drain` once.
pub data DrainAcquire : Type 0 where
  idle acquired busy closed : DrainAcquire

pub data DrainAfter : Type 0 where
  idle pending closed : DrainAfter

pub data DrainClose : Type 0 where
  closed : DrainState → DrainClose
  already_closed : DrainClose

unfoldable pub state_from_raw : ℕ → Outcome DrainState
state_from_raw value =
    if value == Raw.idle
    then returned DrainState.idle
    else if value == Raw.pending
    then returned DrainState.pending
    else if value == Raw.draining
    then returned DrainState.draining
    else if value == Raw.draining_pending
    then returned DrainState.draining_with_pending
    else if value == Raw.closed
    then returned DrainState.closed
    else panicked

-- `DrainSignal::new`.
abbrev pub new : ℕ
new = Raw.idle

unfoldable pub state_program : Program DrainState
state_program = load λ current. halt (state_from_raw current)

unfoldable pub request_program : Program DrainRequest
request_program = load λ current.
    if current == Raw.idle
    then compare_exchange_weak Raw.idle Raw.pending (return DrainRequest.scheduled) restart
    else if current == Raw.pending || current == Raw.draining_pending
    then return DrainRequest.coalesced
    else if current == Raw.draining
    then compare_exchange_weak Raw.draining Raw.draining_pending (return DrainRequest.coalesced)
        restart
    else if current == Raw.closed
    then return DrainRequest.closed
    else panic

unfoldable pub acquire_program : Program DrainAcquire
acquire_program = load λ current.
    if current == Raw.idle
    then return DrainAcquire.idle
    else if current == Raw.pending
    then compare_exchange_weak Raw.pending Raw.draining (return DrainAcquire.acquired) restart
    else if current == Raw.draining || current == Raw.draining_pending
    then return DrainAcquire.busy
    else if current == Raw.closed
    then return DrainAcquire.closed
    else panic

abbrev closed_from : Outcome DrainState → Outcome DrainClose
closed_from (returned s) = returned (DrainClose.closed s)
closed_from panicked = panicked

unfoldable pub close_program : Program DrainClose
close_program = load λ current.
    if current == Raw.closed
    then return DrainClose.already_closed
    else compare_exchange_weak current Raw.closed (halt (closed_from (state_from_raw current)))
        restart

unfoldable pub finish_drain_program : Program DrainAfter
finish_drain_program = load λ current.
    if current == Raw.draining
    then compare_exchange_weak Raw.draining Raw.idle (return DrainAfter.idle) restart
    else if current == Raw.draining_pending
    then compare_exchange_weak Raw.draining_pending Raw.pending (return DrainAfter.pending) restart
    else if (current == Raw.closed || current == Raw.idle) || current == Raw.pending
    then return DrainAfter.closed
    else panic

unfoldable pub state : Method ℕ DrainState
unfolding call state_program state_from_raw
state = call state_program

unfoldable pub request : Method ℕ DrainRequest
unfolding call request_program
request = call request_program

unfoldable pub acquire : Method ℕ DrainAcquire
unfolding call acquire_program
acquire = call acquire_program

unfoldable pub close : Method ℕ DrainClose
unfolding call close_program state_from_raw
close = call close_program

unfoldable pub finish_drain : Method ℕ DrainAfter
unfolding call finish_drain_program
finish_drain = call finish_drain_program
