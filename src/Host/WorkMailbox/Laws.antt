-- ===== src/Host/WorkMailbox/Laws.antt =====
-- host/src/work_mailbox.rs: the methods in any order, and the attachment of the stored work.
pub mod Drains
use rust_jsi.Base.{
  ℕ, ◌≡◌, ◌≢◌, ◌⊎◌, inl, inr, refl, List, [], ◌∷◌, ◌++◌, ◌∙◌, sym, subst, All, All-append, Option,
  none, some, Result, ok, err, Outcome, returned, panicked, Method, arith, Bool, true, false,
}
use rust_jsi.Runtime.Queue.{ArrayQueue, push-cases, pop-cases}
use rust_jsi.Runtime.Drain
use rust_jsi.Runtime.Drain.{DrainAfter}
use rust_jsi.Runtime.Ingress
use rust_jsi.Runtime.Closable.State.{ClosableMailbox}
use rust_jsi.Runtime.Closable.State
use rust_jsi.Runtime.Closable
use rust_jsi.Runtime.Closable.{Hosted}
use rust_jsi.Runtime.Closable.Terminal
use rust_jsi.Host.Identity.{AttachmentId}
use rust_jsi.Host.Work.{ScheduledWork}
use rust_jsi.Host.WorkMailbox
use rust_jsi.Host.WorkMailbox.{ScheduledWorkMailbox, Posting}

module _ {T : Type 0} (A : ArrayQueue T) where
  -- Whatever the words are, the closable mailbox's methods leave the queue alone, but for one push
  -- or one pop.
  enqueue-queue :
      (b : ClosableMailbox A) (x : T)
      → let c = (Closable.enqueue A x b).0 in (c.queue ≡ b.queue) ⊎ (c.queue ≡ (A.push b.queue x).0)
  unfolding Closable.enqueue Closable.publish
  enqueue-queue b x = ground arith

  acquire-queue : (b : ClosableMailbox A) → (Closable.acquire A b).0.queue ≡ b.queue
  unfolding Closable.acquire State.state
  acquire-queue b = ground arith

  drop_drain-queue : (b : ClosableMailbox A) → (Closable.drop_drain A b).0.queue ≡ b.queue
  unfolding Closable.drop_drain Closable.preserve_retained_payloads
  drop_drain-queue b = ground arith

  begin-queue : (b : ClosableMailbox A) → (Terminal.try_begin_terminal_drain A b).0.queue ≡ b.queue
  unfolding Terminal.try_begin_terminal_drain
  begin-queue b = ground arith

  finish-queue : (b : ClosableMailbox A) → (Terminal.finish_terminal A b).0.queue ≡ b.queue
  unfolding Terminal.finish_terminal Terminal.drop_terminal
  finish-queue b = ground arith

  pop-queue : (b : ClosableMailbox A) → (Closable.pop A b).0.queue ≡ (A.pop b.queue).0
  unfolding Closable.pop
  pop-queue b = refl

  pop_terminal-queue :
      (b : ClosableMailbox A) → (Terminal.pop_terminal A b).0.queue ≡ (A.pop b.queue).0
  unfolding Terminal.pop_terminal
  pop_terminal-queue b = refl

  module _ {W : Type 0} where
    finish_with-queue :
        {B : Type 0} (operation : DrainAfter → W → W × B) (h : Hosted A W)
        → (Closable.finish_with A operation h).0.mailbox.queue ≡ h.mailbox.queue
    unfolding Closable.finish_with Closable.preserve_retained_payloads
    finish_with-queue operation h = ground arith

    post_pending-queue :
        {E : Type 0} (post : W → W × Result (Unit {0}) E) (h : Hosted A W)
        → (Closable.post_pending_with A post h).0.mailbox.queue ≡ h.mailbox.queue
    unfolding Closable.post_pending_with
    post_pending-queue post h = ground arith

    enqueue_and_post-queue :
        {E : Type 0} (post : W → W × Result (Unit {0}) E) (h : Hosted A W) (x : T)
        → let q = (Closable.enqueue_and_post A post x h).0.mailbox.queue in
          (q ≡ h.mailbox.queue) ⊎ (q ≡ (A.push h.mailbox.queue x).0)
    unfolding Closable.enqueue_and_post Closable.publish
    enqueue_and_post-queue post h x = ground arith

-- A method of the mailbox or of one of its drains, or the drop of a drain.
pub data Action (T : Type 0) : Type 0 where
  enqueue enqueue_and_post : T → Action T
  post_pending begin_close acquire pop finish finish_and_post drop_drain : Action T
  begin_terminal pop_terminal finish_terminal drop_terminal : Action T

module _ {T W E : Type 0} (A : ArrayQueue (ScheduledWork T))
    (poster : AttachmentId → W → W × Result (Unit {0}) E) where
  abbrev on_own : {B : Type 0} → Method (ScheduledWorkMailbox A) B → Posting A W → Posting A W
  on_own f s = record s { mailbox = (f s.mailbox).0 }

  abbrev pub act : Action T → Posting A W → Posting A W
  act (enqueue x) s = on_own (WorkMailbox.enqueue A x) s
  act (enqueue_and_post x) s = (WorkMailbox.enqueue_and_post A poster x s).0
  act post_pending s = (WorkMailbox.post_pending A poster s).0
  act begin_close s = on_own (WorkMailbox.begin_close A) s
  act acquire s = on_own (WorkMailbox.acquire A) s
  act pop s = on_own (WorkMailbox.pop A) s
  act finish s = (WorkMailbox.finish A s).0
  act finish_and_post s = (WorkMailbox.finish_and_post A poster s).0
  act drop_drain s = on_own (WorkMailbox.on_inner A (Closable.drop_drain A)) s
  act begin_terminal s = on_own (WorkMailbox.try_begin_terminal_drain A) s
  act pop_terminal s = on_own (WorkMailbox.pop_terminal A) s
  act finish_terminal s = on_own (WorkMailbox.finish_terminal A) s
  act drop_terminal s = on_own (WorkMailbox.on_inner A (Terminal.drop_terminal A)) s

  abbrev pub run : List (Action T) → Posting A W → Posting A W
  run [] s = s
  run (a ∷ l) s = run l (act a s)

  abbrev pub works : ScheduledWorkMailbox A → List (ScheduledWork T)
  works b = A.items b.mailbox.queue

  -- All the work that is stored is of the mailbox's attachment.
  abbrev pub IsBound : AttachmentId → ScheduledWorkMailbox A → Type 0
  IsBound a b = (b.attachment ≡ a) × All (λ w. w.attachment ≡ a) (works b)

  abbrev Ours : AttachmentId → A.Q → Type 0
  Ours a q = All (λ w. w.attachment ≡ a) (A.items q)

  push-Ours :
      (a : AttachmentId) (q : A.Q) (w : ScheduledWork T)
      → w.attachment ≡ a
      → Ours a q
      → Ours a (A.push q w).0
  push-Ours a q w e o = elim (push-cases A q w) [
    | inl (_, _, i) ↦ rw (i) (All-append (λ v. v.attachment ≡ a) (A.items q) (w ∷ []) o (e, tt))
    | inr (_, _, i) ↦ rw (i) o
  ]

  pop-Ours : (a : AttachmentId) (q : A.Q) → Ours a q → Ours a (A.pop q).0
  pop-Ours a q o = elim (pop-cases A q) [
    | inl (_, i, _) ↦ rw (i) tt
    | inr (x, i, _) ↦ (rw (i) at o).1
  ]

  -- What a method can do to the queue.
  Moved : AttachmentId → A.Q → A.Q → Type 0
  Moved a q r =
      (r ≡ q)
      ⊎ ((x : T) × (r ≡ (A.push q (record { attachment = a; payload = x })).0))
      ⊎ (r ≡ (A.pop q).0)

  act-Moved :
      (x : Action T) (s : Posting A W)
      → ((act x s).mailbox.attachment ≡ s.mailbox.attachment)
        × Moved s.mailbox.attachment s.mailbox.mailbox.queue (act x s).mailbox.mailbox.queue
  unfolding Moved WorkMailbox.enqueue WorkMailbox.enqueue_and_post WorkMailbox.post_pending
      WorkMailbox.acquire WorkMailbox.finish_and_post Terminal.drop_terminal Closable.begin_close
  act-Moved (enqueue x) s =
      elim (enqueue-queue A s.mailbox.mailbox
        (record { attachment = s.mailbox.attachment; payload = x })) [
          | inl e ↦ (ground arith, inl (ground (arith, e)))
          | inr e ↦ (ground arith, inr (inl (x, ground (arith, e))))
        ]
  act-Moved (enqueue_and_post x) s =
      elim (enqueue_and_post-queue A (poster s.mailbox.attachment)
        (record { mailbox = s.mailbox.mailbox; world = s.world })
        (record { attachment = s.mailbox.attachment; payload = x })) [
          | inl e ↦ (ground arith, inl (ground (arith, e)))
          | inr e ↦ (ground arith, inr (inl (x, ground (arith, e))))
        ]
  act-Moved post_pending s = (
    refl,
    inl (
        post_pending-queue A (poster s.mailbox.attachment)
          (record { mailbox = s.mailbox.mailbox; world = s.world })),
  )
  act-Moved begin_close s = ground arith
  act-Moved acquire s = ground (arith, acquire-queue A s.mailbox.mailbox)
  act-Moved pop s = (refl, inr (inr (pop-queue A s.mailbox.mailbox)))
  act-Moved finish s =
      (refl, inl (finish_with-queue A _ (record { mailbox = s.mailbox.mailbox; world = s.world })))
  act-Moved finish_and_post s =
      (refl, inl (finish_with-queue A _ (record { mailbox = s.mailbox.mailbox; world = s.world })))
  act-Moved drop_drain s = (refl, inl (drop_drain-queue A s.mailbox.mailbox))
  act-Moved begin_terminal s = (refl, inl (begin-queue A s.mailbox.mailbox))
  act-Moved pop_terminal s = (refl, inr (inr (pop_terminal-queue A s.mailbox.mailbox)))
  act-Moved finish_terminal s = (refl, inl (finish-queue A s.mailbox.mailbox))
  act-Moved drop_terminal s = (refl, inl refl)

  act-IsBound :
      (x : Action T) (s : Posting A W) (a : AttachmentId)
      → IsBound a s.mailbox
      → IsBound a (act x s).mailbox
  unfolding Moved
  act-IsBound x s a v =
      let q = s.mailbox.mailbox.queue in
      let (kept, moved) = act-Moved x s in
      (
        kept ∙ v.0,
        elim moved [
          | inl e ↦ subst (Ours a) (sym e) v.1
          | inr (inl (y, e)) ↦ subst (Ours a) (sym e) (push-Ours a q _ v.0 v.1)
          | inr (inr e) ↦ subst (Ours a) (sym e) (pop-Ours a q v.1)
        ],
      )

  run-IsBound :
      (l : List (Action T)) (s : Posting A W) (a : AttachmentId)
      → IsBound a s.mailbox
      → IsBound a (run l s).mailbox
  run-IsBound [] s a v = v
  run-IsBound (x ∷ l) s a v = run-IsBound l (act x s) a (act-IsBound x s a v)

  -- From a new mailbox on, whatever methods are called and drains dropped, in any order, and whatever
  -- the poster answers, the mailbox keeps its attachment and every work it stores carries it.
  pub works-IsBound :
      (l : List (Action T)) (a : AttachmentId) (n : ℕ) (w : W)
      → IsBound a (run l (record { mailbox = WorkMailbox.new A a n; world = w })).mailbox
  works-IsBound l a n w =
      run-IsBound l (record { mailbox = WorkMailbox.new A a n; world = w }) a
        (refl, rw (A.items-new n) tt)
