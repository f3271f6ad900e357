-- ===== src/Runtime/Closable/Laws/Closing.antt =====
-- runtime/src/closable_mailbox.rs: taking, finishing and dropping terminal ownership.
use rust_jsi.Base.{length-zero}
use rust_jsi.Base.{
  ℕ, ◌<◌, ◌≤◌, ◌≡◌, ◌≢◌, ◌⊎◌, [], length, Result, ok, err, returned, arith, if◌then◌else◌, ◌==◌,
}
use rust_jsi.Runtime.Atomic.{call}
use rust_jsi.Runtime.Queue.{ArrayQueue}
use rust_jsi.Runtime.Drain
use rust_jsi.Runtime.Drain.Raw as Signal
use rust_jsi.Runtime.Ingress.{IngressState}
use rust_jsi.Runtime.Ingress.Spec
use rust_jsi.Runtime.Ingress.Spec.{Gate, IsValid, raw}
use rust_jsi.Runtime.Ingress.Laws.{try_seal_lem, begin_close_lem, begin_close-IsValid}
use rust_jsi.Runtime.Closable.Raw
use rust_jsi.Runtime.Closable.State.{ClosableMailbox, TerminalAcquireError, payloads_remain}
use rust_jsi.Runtime.Closable.Terminal.{
  complete_program, abandon_program, try_begin_terminal_drain, finish_terminal, drop_terminal,
}
use rust_jsi.Runtime.Closable.Terminal.Laws.{claim-cases}
use rust_jsi.Runtime.Closable.Laws.{contents, IsGated}

abbrev sealed_gate : Gate
sealed_gate = record { phase = IngressState.sealed; in_flight = 0 }

-- The answer of a claim at a terminal word.
abbrev pub claim_answer : ℕ → Result (Unit {0}) TerminalAcquireError
claim_answer terminal =
    if terminal == Raw.terminal_active
    then err TerminalAcquireError.terminal_drain_active
    else if terminal == Raw.terminal_closed
    then err TerminalAcquireError.closed
    else ok tt

module _ {T : Type 0} (A : ArrayQueue T) where
  -- Terminal ownership is refused before the producers' close, while a producer's reservation or a
  -- normal drain's reservation remains (whose number is told), while another owner is active, and
  -- after the close has completed. A refusal for remaining normal drains has sealed the producers'
  -- gate and closed the normal one. Otherwise there is an owner, both gates are sealed and the signal
  -- is closed. The payloads stay on every branch.
  pub try_begin_terminal_drain_lem :
      (b : ClosableMailbox A) (p n : Gate)
      → IsGated A b p n
      → IsValid p
      → IsValid n
      → b.signal ≤ Signal.closed
      → b.terminal_state ≤ Raw.terminal_closed
      → let (c, r) = try_begin_terminal_drain A b in
        (c.queue ≡ b.queue)
        × (((p.phase ≡ IngressState.open_gate)
              × (c ≡ b)
              × (r ≡ returned (err TerminalAcquireError.producer_close_not_started)))
            ⊎ ((p.phase ≡ IngressState.closing)
                × (0 < p.in_flight)
                × (c ≡ b)
                × (r
                    ≡ returned
                        (err (TerminalAcquireError.producer_reservations_remain p.in_flight))))
            ⊎ ((p.phase ≢ IngressState.open_gate)
                × (p.in_flight ≡ 0)
                × (0 < n.in_flight)
                × IsGated A c sealed_gate (Spec.begin_close n).0
                × (c.signal ≡ b.signal)
                × (c.terminal_state ≡ b.terminal_state)
                × (r
                    ≡ returned
                        (err (TerminalAcquireError.normal_drain_reservations_remain n.in_flight))))
            ⊎ ((p.phase ≢ IngressState.open_gate)
                × (p.in_flight ≡ 0)
                × (n.in_flight ≡ 0)
                × IsGated A c sealed_gate sealed_gate
                × (c.signal ≡ Signal.closed)
                × (c.terminal_state ≡ (
                    if b.terminal_state == Raw.terminal_closed
                    then Raw.terminal_closed
                    else Raw.terminal_active))
                × (r ≡ returned (claim_answer b.terminal_state))))
  unfolding try_begin_terminal_drain Drain.close
  try_begin_terminal_drain_lem b p n v vp vn s t = ground (
    arith,
    try_seal_lem p vp,
    begin_close_lem n vn,
    try_seal_lem (Spec.begin_close n).0 (begin_close-IsValid n vn),
    claim-cases b.terminal_state t,
  )

  -- A terminal owner that finishes closes the mailbox for good if no payload is left, and otherwise
  -- gives its ownership back for another owner to resume, with the number of payloads left.
  pub finish_terminal_lem :
      (b : ClosableMailbox A)
      → b.terminal_state ≡ Raw.terminal_active
      → let (c, r) = finish_terminal A b in
        (c.queue ≡ b.queue)
        × (((contents A b ≡ []) × (c.terminal_state ≡ Raw.terminal_closed) × (r ≡ returned (ok tt)))
            ⊎ ((contents A b ≢ [])
                × (c.terminal_state ≡ Raw.terminal_pending)
                × (r ≡ returned (err (payloads_remain (length (contents A b)))))))
  unfolding finish_terminal drop_terminal call complete_program abandon_program
  finish_terminal_lem b a = ground (arith, A.len-items b.queue, length-zero (contents A b))
