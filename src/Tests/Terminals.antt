-- ===== src/Tests/Terminals.antt =====
-- runtime/src/closable_mailbox.rs under threads: one payload is stored, then the mailbox is closed and
-- its terminal owner takes the payload.
use rust_jsi.Base.{ℕ, ◌+◌, ◌≤◌, ◌≡◌, ◌≢◌, ◌<◌, ◌⊎◌, refl, List, [], ◌∷◌, ◌++◌, returned, err, arith}
use rust_jsi.Runtime.Queue.{ArrayQueue, list_queue}
use rust_jsi.Runtime.Drain
use rust_jsi.Runtime.Drain.{DrainRequest, DrainAfter}
use rust_jsi.Runtime.Drain.Raw as Signal
use rust_jsi.Runtime.Ingress.{IngressSealError}
use rust_jsi.Runtime.Ingress
use rust_jsi.Runtime.Ingress.Spec
use rust_jsi.Runtime.Closable.Raw
use rust_jsi.Runtime.Closable.Concurrent.{System, Action, Reach, start, later, step, init}
use rust_jsi.Runtime.Closable.Concurrent.Invariant.{items, holders, owners}
use rust_jsi.Runtime.Closable.Concurrent.Safety.{
  inside, SealsOnly, payloads_conserved, terminal_excludes, closed_is_final,
  closable_payload_is_announced, closable_unreachable_branches,
}

abbrev numbers : ArrayQueue ℕ
numbers = list_queue ℕ

abbrev steps : List (Action ℕ) → System numbers → System numbers
steps [] s = s
steps (a ∷ l) s = steps l (step numbers a s)

abbrev published : System numbers
published =
    steps (Action.admit ∷ Action.push 7 ∷ Action.request ∷ Action.settle ∷ []) (init numbers 2)

published-Reach : Reach numbers 2 published
unfolding step
published-Reach =
    later Action.settle
      (later Action.request (later (Action.push 7) (later Action.admit start tt) (omega arith))
        (omega arith))
      (omega arith)

published_state :
    (published.signal ≡ Signal.pending)
    × (published.pushed ≡ 0)
    × (items numbers published ≡ 7 ∷ [])
unfolding step
published_state = (refl, refl, refl)

abbrev owned : System numbers
owned =
    steps
      (Action.begin_close ∷ Action.seal_producers ∷ Action.close_normals ∷ Action.seal_normals
        ∷ Action.close_signal ∷ Action.claim ∷ [])
      published

owned-Reach : Reach numbers 2 owned
unfolding step
owned-Reach =
    later Action.claim
      (later Action.close_signal
        (later Action.seal_normals
          (later Action.close_normals
            (later Action.seal_producers (later Action.begin_close published-Reach tt) tt)
            (omega arith))
          (omega arith))
        (omega arith))
      (omega arith)

abbrev closed : System numbers
closed = steps (Action.pop_terminal ∷ Action.measure ∷ Action.complete ∷ []) owned

closed-Reach : Reach numbers 2 closed
unfolding step
closed-Reach =
    later Action.complete
      (later Action.measure (later Action.pop_terminal owned-Reach (omega arith)) (omega arith))
      (omega arith)

closed_state : (closed.terminal ≡ Raw.terminal_closed) × (closed.handed ≡ 7 ∷ [])
unfolding step
closed_state = (refl, refl)

payloads_conserved_example :
    (closed.accepted ≡ closed.handed ++ items numbers closed)
    × ((closed.terminal ≢ Raw.terminal_closed) ⊎ (closed.accepted ≡ closed.handed))
payloads_conserved_example = payloads_conserved numbers closed-Reach

terminal_excludes_example :
    ((owned.terminal ≡ Raw.normal) ⊎ (inside numbers owned ≡ 0))
    × (owners numbers owned ≤ 1)
    × (holders numbers owned ≤ 1)
terminal_excludes_example = terminal_excludes numbers owned-Reach

closed_is_final_example :
    ((step numbers Action.admit closed).terminal ≡ Raw.terminal_closed)
    × ((step numbers Action.admit closed).accepted ≡ closed.accepted)
    × ((step numbers Action.admit closed).handed ≡ closed.handed)
closed_is_final_example = closed_is_final numbers Action.admit closed-Reach closed_state.0 tt

closable_payload_is_announced_example :
    (published.signal ≡ Signal.pending)
    ⊎ (0 < published.working + published.retaining)
    ⊎ ((0 < published.finishing) × (published.signal ≡ Signal.draining_pending))
closable_payload_is_announced_example =
    closable_payload_is_announced numbers published-Reach (ground (arith, published_state.0))
      published_state.1 (rw (published_state.2) (λ e. cc))

closable_unreachable_branches_example :
    ((published.pushed ≡ 0) ⊎ ((Drain.request published.signal).1 ≢ returned DrainRequest.closed))
    × ((published.retaining ≡ 0)
        ⊎ ((Drain.request published.signal).1 ≡ returned DrainRequest.coalesced))
    × ((published.finishing ≡ 0)
        ⊎ ((Drain.finish_drain published.signal).1 ≢ returned DrainAfter.closed))
    × ((published.closed_normals ≡ 0)
        ⊎ ((Spec.try_seal published.normals).1 ≢ err IngressSealError.still_open))
    × SealsOnly (Ingress.try_seal (Spec.raw published.producers)).1
    × SealsOnly (Ingress.try_seal (Spec.raw published.normals)).1
    × ((published.terminal ≡ Raw.normal)
        ⊎ (published.terminal ≡ Raw.terminal_pending)
        ⊎ (published.terminal ≡ Raw.terminal_active)
        ⊎ (published.terminal ≡ Raw.terminal_closed))
closable_unreachable_branches_example = closable_unreachable_branches numbers published-Reach
