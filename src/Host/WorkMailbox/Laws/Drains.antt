-- ===== src/Host/WorkMailbox/Laws/Drains.antt =====
-- host/src/work_mailbox.rs: dispatching from a drain, and finishing it with a post.
use rust_jsi.Base.{
  ◌<◌, ◌≡◌, ◌⊎◌, inl, inr, [], ◌∷◌, All, Option, none, some, Result, ok, err, Outcome, returned,
  arith, map_ok, ◌∙◌,
}
use rust_jsi.Runtime.Queue.{ArrayQueue, pop-cases}
use rust_jsi.Runtime.Drain.{DrainAfter}
use rust_jsi.Runtime.Drain.Raw as Signal
use rust_jsi.Runtime.Ingress.Raw as Gates
use rust_jsi.Runtime.Ingress.Spec.{Gate}
use rust_jsi.Runtime.Closable
use rust_jsi.Runtime.Closable.Laws.{IsGated}
use rust_jsi.Runtime.Closable.Laws.Drains.{one_more}
use rust_jsi.Runtime.Closable.Laws.Posts.{IsHeld, Posted-cases, finish_with_lem}
use rust_jsi.Host.Identity.{AttachmentId}
use rust_jsi.Host.Work.{Host, ScheduledWork, WorkDispatchError, entry, dispatch}
use rust_jsi.Host.Work.Laws.{dispatch_lem}
use rust_jsi.Host.WorkMailbox.{
  ScheduledWorkMailbox, Posting, ScheduledWorkFinishError, dispatch_next, post_if_pending,
  finish_and_post,
}

module _ {T : Type 0} (A : ArrayQueue (ScheduledWork T)) where
  module _ (H : Host) {R : Type 0} (operation : H.Backend → T → H.Backend × R) where
    -- What a dispatch gives for the work `w`, when the host keeps its contract and the work is of its
    -- attachment: a rejected entry, with the work, or the operation's result on the payload.
    abbrev pub Dispatched :
        ScheduledWork T
        → H.H
        → H.H
        → Outcome (Result (Option R) (WorkDispatchError T H.Error))
        → Type 0
    Dispatched w host k r =
        let (h, lent) = H.enter host in
        ((e : H.Error) × (lent ≡ err e) × (k ≡ h) × (r ≡ returned (err (entry w e))))
        ⊎ ((b : H.Backend) × (lent ≡ ok b)
            × (k ≡ (H.leave h (operation b w.payload).0).0)
            × (r ≡ returned (ok (some (operation b w.payload).1))))

    dispatched :
        ((h : H.H) (b : H.Backend) → (H.leave h b).1 ≡ none)
        → (w : ScheduledWork T) (host : H.H) → w.attachment ≡ H.attachment_id host
        → let (k, r) = dispatch H operation w host in Dispatched w host k (returned (map_ok some r))
    dispatched keeps w host same = elim (dispatch_lem H operation w host) [
      | inl (other, _, _) ↦ absurd (other same)
      | inr (inl (e, _, lent, k, r)) ↦ inl (e, lent, k, ground (arith, r))
      | inr (inr (b, _, lent, k, inl (_, r))) ↦ inr (b, lent, k, ground (arith, r))
      | inr (inr (b, _, _, _, inr (failed, _))) ↦ absurd (failed (keeps _ _))
    ]

    -- With a host that keeps its contract and is of the mailbox's attachment, and with all stored work
    -- bound to that attachment: the oldest work is dispatched into the host, and is never
    -- refused as another attachment's: the entry is rejected and the work comes back, or the
    -- operation runs on its payload. With no work stored the host is not entered.
    pub dispatch_next_lem :
        ((h : H.H) (b : H.Backend) → (H.leave h b).1 ≡ none)
        → (b : ScheduledWorkMailbox A) (host : H.H) → b.attachment ≡ H.attachment_id host
        → All (λ w. w.attachment ≡ b.attachment) (A.items b.mailbox.queue)
        → let (c, k, r) = dispatch_next A H operation host b in
          ((A.items b.mailbox.queue ≡ [])
            × (A.items c.mailbox.queue ≡ [])
            × (k ≡ host)
            × (r ≡ returned (ok none)))
          ⊎ ((w : ScheduledWork T) × (A.items b.mailbox.queue ≡ w ∷ A.items c.mailbox.queue)
              × Dispatched w host k r)
    unfolding dispatch_next Closable.pop
    dispatch_next_lem keeps b host same bound = elim (pop-cases A b.mailbox.queue) [
      | inl (i, j, e) ↦ inl (i, j, ground (arith, e), ground (arith, e))
      | inr (w, i, e) ↦
          let ours : w.attachment ≡ b.attachment = (rw (i) at bound).0 in
          inr (w, i, rw (e) (dispatched keeps w host (ours ∙ same)))
    ]

  module _ {W E : Type 0} (poster : AttachmentId → W → W × Result (Unit {0}) E) where
    -- A drain that is finished with a post: the host is asked for one, for the mailbox's attachment,
    -- exactly when the signal is left pending, while the drain's admission is still held; a failure
    -- is reported with the attachment. With nothing pending the host's state is as it was.
    pub finish_and_post_lem :
        (h : Posting A W) (p n : Gate)
        → IsGated A h.mailbox.mailbox p (one_more n)
        → n.in_flight < Gates.reservation_mask
        → IsHeld h.mailbox.mailbox.signal
        → let (k, r) = finish_and_post A poster h in
          let a = h.mailbox.attachment in
          IsGated A k.mailbox.mailbox p n
          × (k.mailbox.attachment ≡ a)
          × (k.mailbox.mailbox.queue ≡ h.mailbox.mailbox.queue)
          × (((k.mailbox.mailbox.signal ≡ Signal.pending)
                × (k.world ≡ (poster a h.world).0)
                × ((((poster a h.world).1 ≡ ok tt) × (r ≡ returned (ok DrainAfter.pending)))
                    ⊎ ((e : E) × ((poster a h.world).1 ≡ err e)
                        × (r ≡ returned (err (ScheduledWorkFinishError.post a e))))))
              ⊎ ((k.mailbox.mailbox.signal ≡ Signal.idle)
                  × (A.items h.mailbox.mailbox.queue ≡ [])
                  × (k.world ≡ h.world)
                  × (r ≡ returned (ok DrainAfter.idle))))
    unfolding finish_and_post
    finish_and_post_lem h p n v room held =
        let a = h.mailbox.attachment in
        let finished =
          finish_with_lem A (record { mailbox = h.mailbox.mailbox; world = h.world }) p n
            (post_if_pending A poster a) v room held in
        elim (Posted-cases (poster a h.world).1) [
          | inl sent ↦ ground (arith, sent, finished)
          | inr (e, failed) ↦ ground (arith, failed, finished)
        ]
