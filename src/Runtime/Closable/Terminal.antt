-- ===== src/Runtime/Closable/Terminal.antt =====
-- runtime/src/closable_mailbox.rs: the close owner's methods.
pub mod Laws
use rust_jsi.Base.{
  Bool, ℕ, if◌then◌else◌, ◌==◌, ◌||◌, Option, Result, ok, err, Method, ◌>>=◌, ◌>>◌, give,
  unreachable,
}
use rust_jsi.Runtime.Atomic.{
  Program, load, restart, compare_exchange_weak, compare_exchange, return, panic, call,
}
use rust_jsi.Runtime.Queue.{ArrayQueue}
use rust_jsi.Runtime.Drain
use rust_jsi.Runtime.Ingress
use rust_jsi.Runtime.Ingress.{IngressState, IngressSealError, reservations_remain, still_open}
use rust_jsi.Runtime.Closable.Raw
use rust_jsi.Runtime.Closable.State.{
  ClosableMailbox, TerminalAcquireError, TerminalDrainFinishError, payloads_remain, stale, on_queue,
  on_signal, on_producer_gate, on_normal_drain_gate, on_terminal_state,
}

abbrev pub is_claimable : ℕ → Bool
is_claimable m = m == Raw.normal || m == Raw.terminal_pending

-- The loop at the end of `try_begin_terminal_drain`, with its two loads.
unfoldable pub claim_program : Program (Result (Unit {0}) TerminalAcquireError)
claim_program = load λ first.
    if is_claimable first
    then (load λ current.
        if is_claimable current
        then compare_exchange_weak current Raw.terminal_active (return (ok tt)) restart
        else restart)
    else if first == Raw.terminal_active
    then return (err TerminalAcquireError.terminal_drain_active)
    else if first == Raw.terminal_closed
    then return (err TerminalAcquireError.closed)
    else panic

unfoldable pub complete_program : Program (Result (Unit {0}) TerminalDrainFinishError)
complete_program =
    compare_exchange Raw.terminal_active Raw.terminal_closed (return (ok tt)) (return (err stale))

-- The drop of an unfinished `TerminalMailboxDrain`.
unfoldable pub abandon_program : Program (Unit {0})
abandon_program = compare_exchange Raw.terminal_active Raw.terminal_pending (return tt) (return tt)

module _ {T : Type 0} (A : ArrayQueue T) where
  abbrev claimed :
      Result IngressState IngressSealError
      → Method (ClosableMailbox A) (Result (Unit {0}) TerminalAcquireError)
  claimed (ok IngressState.sealed) = do
    _ ← on_signal A Drain.close
    on_terminal_state A (call claim_program)
  claimed (ok _) = unreachable
  claimed (err still_open) = unreachable
  claimed (err (reservations_remain n)) =
      give (err (TerminalAcquireError.normal_drain_reservations_remain n))

  abbrev producers_sealed :
      Result IngressState IngressSealError
      → Method (ClosableMailbox A) (Result (Unit {0}) TerminalAcquireError)
  producers_sealed (ok IngressState.sealed) = do
    _ ← on_normal_drain_gate A Ingress.begin_close
    r ← on_normal_drain_gate A Ingress.try_seal
    claimed r
  producers_sealed (ok _) = unreachable
  producers_sealed (err still_open) = give (err TerminalAcquireError.producer_close_not_started)
  producers_sealed (err (reservations_remain n)) =
      give (err (TerminalAcquireError.producer_reservations_remain n))

  -- The `TerminalMailboxDrain` of `ok` is the right to `pop`, and to finish or drop it once.
  unfoldable pub try_begin_terminal_drain :
      Method (ClosableMailbox A) (Result (Unit {0}) TerminalAcquireError)
  try_begin_terminal_drain = do r ← on_producer_gate A Ingress.try_seal; producers_sealed r

  unfoldable pub pop_terminal : Method (ClosableMailbox A) (Option T)
  pop_terminal = on_queue A A.pop

  unfoldable pub drop_terminal : Method (ClosableMailbox A) (Unit {0})
  unfolding call abandon_program
  drop_terminal = on_terminal_state A (call abandon_program)

  abbrev completed :
      Result (Unit {0}) TerminalDrainFinishError
      → Method (ClosableMailbox A) (Result (Unit {0}) TerminalDrainFinishError)
  completed (ok _) = give (ok tt)
  completed (err e) = do drop_terminal; give (err e)

  -- `TerminalMailboxDrain::finish`; on an error the drain is dropped unfinished.
  unfoldable pub finish_terminal :
      Method (ClosableMailbox A) (Result (Unit {0}) TerminalDrainFinishError)
  finish_terminal = do
    remaining ← on_queue A (λ q. (q, A.len q))
    if remaining == 0
        then (on_terminal_state A (call complete_program) >>= completed)
        else (drop_terminal >> give (err (payloads_remain remaining)))
