-- ===== src/Runtime/Closable/Laws/Posts.antt =====
-- runtime/src/closable_mailbox.rs: the methods that run a host's callback within an admission.
use rust_jsi.Base.{
  refl, ℕ, ◌+◌, ◌<◌, ◌≤◌, ◌≡◌, ◌≢◌, ◌⊎◌, inl, inr, [], ◌∷◌, ◌++◌, length, Result, ok, err, returned,
  arith, true, false,
}
use rust_jsi.Runtime.Queue.{ArrayQueue}
use rust_jsi.Runtime.Drain
use rust_jsi.Runtime.Drain.{DrainAfter}
use rust_jsi.Runtime.Drain.Raw as Signal
use rust_jsi.Runtime.Ingress.Raw as Gates
use rust_jsi.Runtime.Ingress.Spec.{Gate, raw}
use rust_jsi.Runtime.Ingress.Laws.{Admits, Refuses, reserve-cases, settle-reserve}
use rust_jsi.Runtime.Mailbox.{MailboxEnqueue}
use rust_jsi.Runtime.Closable.State.{ClosableMailboxEnqueueError, enqueue_failed, post_failed}
use rust_jsi.Runtime.Closable.{
  Hosted, preserve_retained_payloads, finish_with, enqueue_and_post, post_pending_with,
}
use rust_jsi.Runtime.Closable.Laws.{contents, IsGated, publish_lem}
use rust_jsi.Runtime.Closable.Laws.Drains.{one_more}

-- A consumer holds the drain.
abbrev pub IsHeld : ℕ → Type 0
IsHeld m = (m ≡ Signal.draining) ⊎ (m ≡ Signal.draining_pending)

pub Posted-cases : {E : Type 0} (r : Result (Unit {0}) E) → (r ≡ ok tt) ⊎ ((e : E) × (r ≡ err e))
Posted-cases (ok tt) = inl refl
Posted-cases (err e) = inr (e, refl)

module _ {T W : Type 0} (A : ArrayQueue T) where
  -- A normal drain that is finished early or late: if a payload is left or was asked for, the signal
  -- is pending and the host's operation is told so; else the mailbox is empty and idle. Only then is
  -- the operation run, once, and the admission is given back after it.
  pub finish_with_lem :
      {B : Type 0} (h : Hosted A W) (p n : Gate) (operation : DrainAfter → W → W × B)
      → IsGated A h.mailbox p (one_more n)
      → n.in_flight < Gates.reservation_mask
      → IsHeld h.mailbox.signal
      → let (k, r) = finish_with A operation h in
        IsGated A k.mailbox p n
        × (k.mailbox.queue ≡ h.mailbox.queue)
        × (k.mailbox.terminal_state ≡ h.mailbox.terminal_state)
        × (((k.mailbox.signal ≡ Signal.pending)
              × ((h.mailbox.signal ≡ Signal.draining_pending) ⊎ (contents A h.mailbox ≢ []))
              × (k.world ≡ (operation DrainAfter.pending h.world).0)
              × (r ≡ returned (operation DrainAfter.pending h.world).1))
            ⊎ ((k.mailbox.signal ≡ Signal.idle)
                × (h.mailbox.signal ≡ Signal.draining)
                × (contents A h.mailbox ≡ [])
                × (k.world ≡ (operation DrainAfter.idle h.world).0)
                × (r ≡ returned (operation DrainAfter.idle h.world).1)))
  unfolding finish_with preserve_retained_payloads Drain.finish_drain
  finish_with_lem h p n operation v room held =
      ground (arith, A.is_empty-items h.mailbox.queue, settle-reserve n room)

  module _ {E : Type 0} (post : W → W × Result (Unit {0}) E) where
    -- While the signal is not closed, the host's post is made exactly when the enqueue gives a new drain obligation. If it fails the
    -- payload stays with its pending signal, and the failure is reported; an admission failure gives
    -- the payload back and posts nothing. The producer's admission is given back on every branch.
    pub enqueue_and_post_lem :
        (h : Hosted A W) (x : T) (p n : Gate)
        → IsGated A h.mailbox p n
        → h.mailbox.signal < Signal.closed
        → let (k, r) = enqueue_and_post A post x h in
          IsGated A k.mailbox p n
          × ((Admits p
                × (length (contents A h.mailbox) < A.capacity h.mailbox.queue)
                × (contents A k.mailbox ≡ contents A h.mailbox ++ x ∷ [])
                × (((h.mailbox.signal ≡ Signal.idle)
                      × (k.mailbox.signal ≡ Signal.pending)
                      × (k.world ≡ (post h.world).0)
                      × ((((post h.world).1 ≡ ok tt) × (r ≡ returned (ok MailboxEnqueue.scheduled)))
                          ⊎ ((e : E) × ((post h.world).1 ≡ err e)
                              × (r ≡ returned (err (post_failed e))))))
                    ⊎ ((h.mailbox.signal ≢ Signal.idle)
                        × (k.mailbox.signal ≢ Signal.idle)
                        × (k.world ≡ h.world)
                        × (r ≡ returned (ok MailboxEnqueue.coalesced)))))
              ⊎ (Admits p
                  × (A.capacity h.mailbox.queue ≤ length (contents A h.mailbox))
                  × (contents A k.mailbox ≡ contents A h.mailbox)
                  × (k.mailbox.signal ≡ h.mailbox.signal)
                  × (k.world ≡ h.world)
                  × (r ≡ returned (err (enqueue_failed (ClosableMailboxEnqueueError.full x)))))
              ⊎ (Refuses p
                  × (k ≡ h)
                  × (r ≡ returned (err (enqueue_failed (ClosableMailboxEnqueueError.closed x))))))
    unfolding enqueue_and_post
    enqueue_and_post_lem h x p n v live = elim (reserve-cases p v.producers_bounded) [
      | inl (admits, e) ↦
          let b = record (h.mailbox) { producer_gate = raw p + 1 } in
          elim (Posted-cases (post h.world).1) [
            | inl sent ↦ ground (arith, e, sent, publish_lem A b x live, settle-reserve p admits.1)
            | inr (e', failed) ↦
                ground (arith, e, failed, publish_lem A b x live, settle-reserve p admits.1)
          ]
      | inr (refuses, e) ↦ ground (arith, e)
    ]

    -- A retry posts exactly when the normal gate is open and the signal is pending; the mailbox is as
    -- it was in any case.
    pub post_pending_with_lem :
        (h : Hosted A W) (p n : Gate)
        → IsGated A h.mailbox p n
        → h.mailbox.signal ≤ Signal.closed
        → let (k, r) = post_pending_with A post h in
          (k.mailbox ≡ h.mailbox)
          × ((Admits n
                × (h.mailbox.signal ≡ Signal.pending)
                × (k.world ≡ (post h.world).0)
                × ((((post h.world).1 ≡ ok tt) × (r ≡ returned (ok true)))
                    ⊎ ((e : E) × ((post h.world).1 ≡ err e) × (r ≡ returned (err e)))))
              ⊎ ((Refuses n ⊎ (h.mailbox.signal ≢ Signal.pending))
                  × (k.world ≡ h.world)
                  × (r ≡ returned (ok false))))
    unfolding post_pending_with Drain.state
    post_pending_with_lem h p n v live = elim (reserve-cases n v.normals_bounded) [
      | inl (admits, e) ↦ elim (Posted-cases (post h.world).1) [
        | inl sent ↦ ground (arith, e, sent, settle-reserve n admits.1)
        | inr (e', failed) ↦ ground (arith, e, failed, settle-reserve n admits.1)
      ]
      | inr (refuses, e) ↦ ground (arith, e)
    ]
