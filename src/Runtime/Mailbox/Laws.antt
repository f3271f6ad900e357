-- ===== src/Runtime/Mailbox/Laws.antt =====
-- runtime/src/mailbox.rs: the well-formed mailbox, and the methods on every branch.
use rust_jsi.Base.{
  ℕ, ◌<◌, ◌≤◌, ◌≡◌, ◌≢◌, ◌⊎◌, inl, inr, List, [], ◌∷◌, ◌++◌, length, length-append, none, some, ok,
  err, returned, arith,
}
use rust_jsi.Runtime.Queue.{ArrayQueue, push-cases, pop-cases}
use rust_jsi.Runtime.Drain.{DrainAfter}
use rust_jsi.Runtime.Drain.Raw
use rust_jsi.Runtime.Mailbox.{
  BoundedMailbox, MailboxEnqueue, MailboxAcquire, full, new, enqueue, acquire, pop, finish,
  drop_drain,
}

module _ {T : Type 0} (A : ArrayQueue T) where
  abbrev pub contents : BoundedMailbox A → List T
  contents b = A.items b.queue

  -- The signal is not closed, an idle signal has no payload behind it, and the queue is in bounds.
  pub record IsValid (b : BoundedMailbox A) : Type 0 where
    pub live : b.signal < Raw.closed
    pub posted : (b.signal ≢ Raw.idle) ⊎ (contents b ≡ [])
    pub fits : length (contents b) ≤ A.capacity b.queue

  -- A consumer holds the drain.
  abbrev pub IsDraining : BoundedMailbox A → Type 0
  IsDraining b = (b.signal ≡ Raw.draining) ⊎ (b.signal ≡ Raw.draining_pending)

  pub new-IsValid : (n : ℕ) → IsValid (new A n)
  new-IsValid n = ground (arith, A.items-new n)

  -- Enqueueing keeps the mailbox valid and never panics. With room the payload goes to the end, the
  -- signal is no longer idle, and the answer is `scheduled` if the signal was idle and `coalesced` if
  -- not. Without room the mailbox is as it was and the payload comes back.
  pub enqueue_lem :
      (b : BoundedMailbox A) (x : T)
      → IsValid b
      → let (c, r) = enqueue A x b in
        IsValid c
        × (((length (contents b) < A.capacity b.queue)
              × (contents c ≡ contents b ++ x ∷ [])
              × (c.signal ≢ Raw.idle)
              × (((b.signal ≡ Raw.idle) × (r ≡ returned (ok MailboxEnqueue.scheduled)))
                  ⊎ ((b.signal ≢ Raw.idle) × (r ≡ returned (ok MailboxEnqueue.coalesced)))))
            ⊎ ((A.capacity b.queue ≤ length (contents b))
                × (contents c ≡ contents b)
                × (c.signal ≡ b.signal)
                × (r ≡ returned (err (full x)))))
  unfolding enqueue
  enqueue_lem b x v = elim (push-cases A b.queue x) [
    | inl (room, e, i) ↦
        rw (e, enqueue)
          (ground (arith, i, A.capacity-push b.queue x, length-append (contents b) (x ∷ [])))
    | inr (none_left, e, i) ↦ rw (e, enqueue) (ground (arith, i, A.capacity-push b.queue x))
  ]

  -- Acquiring keeps the mailbox valid, its payloads and its capacity, and never panics. It gives the
  -- drain exactly when the signal was pending; with none to give, the mailbox is as it was, and an
  -- idle answer means that no payload is stored.
  pub acquire_lem :
      (b : BoundedMailbox A)
      → IsValid b
      → let (c, r) = acquire A b in
        IsValid c
        × (c.queue ≡ b.queue)
        × (((b.signal ≡ Raw.pending) × IsDraining c × (r ≡ returned MailboxAcquire.acquired))
            ⊎ (IsDraining b × (c.signal ≡ b.signal) × (r ≡ returned MailboxAcquire.busy))
            ⊎ ((contents b ≡ []) × (c.signal ≡ b.signal) × (r ≡ returned MailboxAcquire.idle)))
  unfolding acquire
  acquire_lem b v = ground arith

  -- The holder of the drain takes the oldest payload, or learns that there is none.
  pub pop_lem :
      (b : BoundedMailbox A)
      → IsValid b
      → IsDraining b
      → let (c, r) = pop A b in
        IsValid c
        × IsDraining c
        × (((contents b ≡ []) × (contents c ≡ []) × (r ≡ returned none))
            ⊎ ((x : T) × (contents b ≡ x ∷ contents c) × (r ≡ returned (some x))))
  unfolding pop
  pop_lem b v d = ground (arith, pop-cases A b.queue, A.capacity-pop b.queue)

  -- However early a drain is finished, no payload is stranded: if one is left, or was asked for
  -- while the drain was held, the signal is pending and the answer says so; else the mailbox is
  -- empty and idle. The drain is no longer held, and nothing panics.
  pub finish_lem :
      (b : BoundedMailbox A)
      → IsValid b
      → IsDraining b
      → let (c, r) = finish A b in
        IsValid c
        × (c.queue ≡ b.queue)
        × (((c.signal ≡ Raw.pending)
              × (r ≡ returned DrainAfter.pending)
              × ((b.signal ≡ Raw.draining_pending) ⊎ (contents b ≢ [])))
            ⊎ ((c.signal ≡ Raw.idle)
                × (r ≡ returned DrainAfter.idle)
                × (b.signal ≡ Raw.draining)
                × (contents b ≡ [])))
  unfolding finish
  finish_lem b v d = ground (arith, A.is_empty-items b.queue)

  -- A drain that is dropped leaves the mailbox as one that is finished does.
  pub drop_drain-finish :
      (b : BoundedMailbox A)
      → IsValid b
      → IsDraining b
      → ((drop_drain A b).0 ≡ (finish A b).0) × ((drop_drain A b).1 ≡ returned tt)
  unfolding finish drop_drain
  drop_drain-finish b v d = ground (arith, A.is_empty-items b.queue)
