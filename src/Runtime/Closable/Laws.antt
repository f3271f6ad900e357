-- ===== src/Runtime/Closable/Laws.antt =====
-- runtime/src/closable_mailbox.rs: the producers' and consumers' methods, on every branch.
pub mod Drains
pub mod Posts
pub mod Closing
pub mod Final
use rust_jsi.Base.{
  ℕ, ◌+◌, ◌<◌, ◌≤◌, ◌≡◌, ◌≢◌, ◌⊎◌, inl, inr, List, [], ◌∷◌, ◌++◌, length, length-append, Option,
  none, some, Result, ok, err, Outcome, returned, panicked, arith, Bool, true, false,
}
use rust_jsi.Runtime.Queue.{ArrayQueue, push-cases, pop-cases}
use rust_jsi.Runtime.Drain.{DrainAfter}
use rust_jsi.Runtime.Drain.Raw as Signal
use rust_jsi.Runtime.Ingress.{IngressState}
use rust_jsi.Runtime.Ingress.Raw as Gates
use rust_jsi.Runtime.Ingress
use rust_jsi.Runtime.Ingress.Spec.{Gate, raw}
use rust_jsi.Runtime.Ingress.Laws.{Admits, Refuses, refusal, reserve-cases, settle-reserve}
use rust_jsi.Runtime.Mailbox.{MailboxEnqueue}
use rust_jsi.Runtime.Closable.State.{
  ClosableMailbox, ClosableMailboxEnqueueError, ClosableMailboxAcquire, ClosableMailboxPostError,
  enqueue_failed, post_failed,
}
use rust_jsi.Runtime.Closable.{
  Hosted, publish, enqueue, acquire, drop_drain, finish_with, enqueue_and_post, post_pending_with,
}

module _ {T : Type 0} (A : ArrayQueue T) where
  abbrev pub contents : ClosableMailbox A → List T
  contents b = A.items b.queue

  -- The two gates read as gates.
  pub record IsGated (b : ClosableMailbox A) (p n : Gate) : Type 0 where
    pub producers : b.producer_gate ≡ raw p
    pub normals : b.normal_drain_gate ≡ raw n
    pub producers_bounded : p.in_flight ≤ Gates.reservation_mask
    pub normals_bounded : n.in_flight ≤ Gates.reservation_mask

  pub publish_lem :
      (b : ClosableMailbox A) (x : T)
      → b.signal < Signal.closed
      → let (c, r) = publish A x b in
        (c.producer_gate ≡ b.producer_gate)
        × (c.normal_drain_gate ≡ b.normal_drain_gate)
        × (c.terminal_state ≡ b.terminal_state)
        × (((length (contents b) < A.capacity b.queue)
              × (contents c ≡ contents b ++ x ∷ [])
              × (((b.signal ≡ Signal.idle)
                    × (c.signal ≡ Signal.pending)
                    × (r ≡ returned (ok MailboxEnqueue.scheduled)))
                  ⊎ ((b.signal ≢ Signal.idle)
                      × (c.signal ≢ Signal.idle)
                      × (r ≡ returned (ok MailboxEnqueue.coalesced)))))
            ⊎ ((A.capacity b.queue ≤ length (contents b))
                × (contents c ≡ contents b)
                × (c.signal ≡ b.signal)
                × (r ≡ returned (err (ClosableMailboxEnqueueError.full x)))))
  unfolding publish
  publish_lem b x live = elim (push-cases A b.queue x) [
    | inl (room, e, i) ↦ rw (e, publish) (ground (arith, i))
    | inr (none_left, e, i) ↦ rw (e, publish) (ground (arith, i))
  ]

  -- While the signal is not closed: with the producers' gate open, enqueueing does as in the bounded mailbox: the payload goes to the
  -- end and the answer is `scheduled` exactly when the signal was idle, or the queue is full and the
  -- payload comes back. With the gate closing or its counter exhausted the payload comes back as
  -- `closed`. It never panics, its admission is given back, and the rest of the mailbox is as it was.
  pub closable_enqueue_lem :
      (b : ClosableMailbox A) (x : T) (p n : Gate)
      → IsGated b p n
      → b.signal < Signal.closed
      → let (c, r) = enqueue A x b in
        IsGated c p n
        × (c.terminal_state ≡ b.terminal_state)
        × ((Admits p
              × (length (contents b) < A.capacity b.queue)
              × (contents c ≡ contents b ++ x ∷ [])
              × (((b.signal ≡ Signal.idle)
                    × (c.signal ≡ Signal.pending)
                    × (r ≡ returned (ok MailboxEnqueue.scheduled)))
                  ⊎ ((b.signal ≢ Signal.idle)
                      × (c.signal ≢ Signal.idle)
                      × (r ≡ returned (ok MailboxEnqueue.coalesced)))))
            ⊎ (Admits p
                × (A.capacity b.queue ≤ length (contents b))
                × (contents c ≡ contents b)
                × (c.signal ≡ b.signal)
                × (r ≡ returned (err (ClosableMailboxEnqueueError.full x))))
            ⊎ (Refuses p × (c ≡ b) × (r ≡ returned (err (ClosableMailboxEnqueueError.closed x)))))
  unfolding enqueue
  closable_enqueue_lem b x p n v live = elim (reserve-cases p v.producers_bounded) [
    | inl (admits, e) ↦ ground (
      arith,
      e,
      publish_lem (record b { producer_gate = raw p + 1 }) x live,
      settle-reserve p admits.1,
    )
    | inr (refuses, e) ↦ ground (arith, e)
  ]
