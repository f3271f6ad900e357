-- ===== src/Runtime/Closable/Laws/Drains.antt =====
-- runtime/src/closable_mailbox.rs: acquiring and finishing a normal drain, and the posts.
use rust_jsi.Base.{ℕ, ◌+◌, ◌≤◌, ◌≡◌, ◌≢◌, ◌⊎◌, inl, inr, returned, arith, if◌then◌else◌, ◌==◌}
use rust_jsi.Runtime.Queue.{ArrayQueue}
use rust_jsi.Runtime.Drain
use rust_jsi.Runtime.Drain.{DrainAfter}
use rust_jsi.Runtime.Drain.Raw as Signal
use rust_jsi.Runtime.Ingress
use rust_jsi.Runtime.Ingress.{IngressState}
use rust_jsi.Runtime.Ingress.Spec.{Gate, raw}
use rust_jsi.Runtime.Ingress.Laws.{Admits, Refuses, reserve-cases, settle-reserve}
use rust_jsi.Runtime.Closable.Raw
use rust_jsi.Runtime.Closable.State.{
  ClosableMailbox, ClosableMailboxState, ClosableMailboxAcquire, state,
}
use rust_jsi.Runtime.Closable.{acquire}
use rust_jsi.Runtime.Closable.Laws.{IsGated}

-- The gate with one reservation more.
abbrev pub one_more : Gate → Gate
one_more g = record g { in_flight = g.in_flight + 1 }

abbrev by_phase : IngressState → ClosableMailboxState
by_phase IngressState.open_gate = ClosableMailboxState.open_mailbox
by_phase _ = ClosableMailboxState.closing

-- The lifecycle that an observer sees.
abbrev pub lifecycle : ℕ → IngressState → ClosableMailboxState
lifecycle terminal phase =
    if terminal == Raw.normal
    then by_phase phase
    else if terminal == Raw.terminal_pending
    then ClosableMailboxState.terminal_pending
    else if terminal == Raw.terminal_active
    then ClosableMailboxState.terminal_draining
    else ClosableMailboxState.closed

module _ {T : Type 0} (A : ArrayQueue T) where
  pub state_lem :
      (b : ClosableMailbox A) (p n : Gate)
      → IsGated A b p n
      → b.terminal_state ≤ Raw.terminal_closed
      → state A b ≡ (b, returned (lifecycle b.terminal_state p.phase))
  unfolding state Ingress.state
  state_lem b p n v h = ground arith

  -- With the normal gate open a pending signal gives the drain, which keeps one reservation of the
  -- gate; an idle or held signal gives none, and the reservation is given back. With the gate closed
  -- or the signal closed the lifecycle is reported. It never panics, and the payloads stay.
  pub closable_acquire_lem :
      (b : ClosableMailbox A) (p n : Gate)
      → IsGated A b p n
      → b.signal ≤ Signal.closed
      → b.terminal_state ≤ Raw.terminal_closed
      → let (c, r) = acquire A b in
        (c.queue ≡ b.queue)
        × (c.terminal_state ≡ b.terminal_state)
        × ((Admits n
              × (b.signal ≡ Signal.pending)
              × (c.signal ≡ Signal.draining)
              × IsGated A c p (one_more n)
              × (r ≡ returned ClosableMailboxAcquire.acquired))
            ⊎ (Admits n
                × (b.signal ≢ Signal.pending)
                × (c.signal ≡ b.signal)
                × IsGated A c p n
                × (r
                    ≡ returned (
                        if b.signal == Signal.idle
                        then ClosableMailboxAcquire.idle
                        else if b.signal == Signal.closed
                        then ClosableMailboxAcquire.unavailable (lifecycle b.terminal_state p.phase)
                        else ClosableMailboxAcquire.busy)))
            ⊎ (Refuses n
                × (c ≡ b)
                × (r
                    ≡ returned
                        (ClosableMailboxAcquire.unavailable (lifecycle b.terminal_state p.phase)))))
  unfolding acquire Drain.acquire
  closable_acquire_lem b p n v h t = elim (reserve-cases n v.normals_bounded) [
    | inl (admits, e) ↦ ground (
      arith,
      e,
      state_lem (record b { normal_drain_gate = raw n + 1; signal = Signal.closed }) p (one_more n),
      state_lem (record b { normal_drain_gate = raw n + 1 }) p (one_more n),
      settle-reserve n admits.1,
    )
    | inr (refuses, e) ↦ ground (arith, e, state_lem b p n v t)
  ]
