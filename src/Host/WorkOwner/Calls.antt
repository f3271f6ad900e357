-- ===== src/Host/WorkOwner/Calls.antt =====
-- host/src/work_owner.rs: sequences of calls on the owner, on its senders and on the mailboxes.
use rust_jsi.Base.{ℕ, ◌≡◌, refl, Result, returned, Method, arith}
use rust_jsi.Runtime.Queue.{ArrayQueue}
use rust_jsi.Runtime.Closable.Laws.Final.{
  Keeps, enqueue-Keeps, begin_close-Keeps, acquire-Keeps, drop_drain-Keeps, pop-Keeps,
  pop_terminal-Keeps, begin-Keeps, finish-Keeps, drop_terminal-Keeps, finish_with-Keeps,
  post_pending-Keeps, enqueue_and_post-Keeps,
}
use rust_jsi.Host.Identity.{AttachmentId}
use rust_jsi.Host.Work.{ScheduledWork}
use rust_jsi.Host.WorkMailbox
use rust_jsi.Host.WorkMailbox.{ScheduledWorkMailbox, Posting, ScheduledWorkEnqueueError}
use rust_jsi.Host.WorkMailbox.Laws as Inner
use rust_jsi.Host.WorkOwner.{
  Heap, ScheduledWorkSender, new, on_mailbox, begin_close, post_pending, send, send_and_post,
  replace, try_begin_terminal_drain,
}

-- A call on the owner or on a sender, or any method on any mailbox that was ever made.
pub data Action (T : Type 0) : Type 0 where
  on : ℕ → Inner.Action T → Action T
  sends sends_and_posts : ScheduledWorkSender → T → Action T
  closes retries begins : Action T
  replaces : AttachmentId → ℕ → Action T

module _ {T W E : Type 0} (A : ArrayQueue (ScheduledWork T))
    (poster : AttachmentId → W → W × Result (Unit {0}) E) where
  abbrev pub silent : Inner.Action T → Method (Posting A W) (Unit {0})
  silent x s = (Inner.act A poster x s, returned tt)

  abbrev pub act : Action T → Heap A W → Heap A W
  act (on i x) self = (on_mailbox A i (silent x) self).0
  act (sends s x) self = (send A s x self).0
  act (sends_and_posts s x) self = (send_and_post A poster s x self).0
  act closes self = (begin_close A self).0
  act retries self = (post_pending A poster self).0
  act begins self = (try_begin_terminal_drain A self).0
  act (replaces a n) self = (replace A a n self).0

  pub data Reach (a : AttachmentId) (n : ℕ) (w : W) : Heap A W → Type 0 where
    start : Reach a n w (new A a n w)
    later : {s : Heap A W} (x : Action T) → Reach a n w s → Reach a n w (act x s)

  -- A call that keeps the mailbox's attachment, and what is final or sound of it.
  abbrev pub Respects : {B : Type 0} → Method (Posting A W) B → Type 0
  Respects f =
      (s : Posting A W)
      → ((f s).0.mailbox.attachment ≡ s.mailbox.attachment)
        × Keeps A s.mailbox.mailbox (f s).0.mailbox.mailbox

  pub silent-Respects : (x : Inner.Action T) → Respects (silent x)
  unfolding WorkMailbox.enqueue WorkMailbox.enqueue_and_post WorkMailbox.post_pending
      WorkMailbox.acquire WorkMailbox.finish_and_post
  silent-Respects (Inner.enqueue x) s = ground (
    arith,
    enqueue-Keeps A s.mailbox.mailbox (record { attachment = s.mailbox.attachment; payload = x }),
  )
  silent-Respects (Inner.enqueue_and_post x) s = ground (
    arith,
    enqueue_and_post-Keeps A (poster s.mailbox.attachment)
        (record { mailbox = s.mailbox.mailbox; world = s.world })
        (record { attachment = s.mailbox.attachment; payload = x }),
  )
  silent-Respects Inner.post_pending s = (
    refl,
    post_pending-Keeps A (poster s.mailbox.attachment)
        (record { mailbox = s.mailbox.mailbox; world = s.world }),
  )
  silent-Respects Inner.begin_close s = (refl, begin_close-Keeps A s.mailbox.mailbox)
  silent-Respects Inner.acquire s = ground (arith, acquire-Keeps A s.mailbox.mailbox)
  silent-Respects Inner.pop s = (refl, pop-Keeps A s.mailbox.mailbox)
  silent-Respects Inner.finish s =
      (refl, finish_with-Keeps A _ (record { mailbox = s.mailbox.mailbox; world = s.world }))
  silent-Respects Inner.finish_and_post s =
      (refl, finish_with-Keeps A _ (record { mailbox = s.mailbox.mailbox; world = s.world }))
  silent-Respects Inner.drop_drain s = (refl, drop_drain-Keeps A s.mailbox.mailbox)
  silent-Respects Inner.begin_terminal s = (refl, begin-Keeps A s.mailbox.mailbox)
  silent-Respects Inner.pop_terminal s = (refl, pop_terminal-Keeps A s.mailbox.mailbox)
  silent-Respects Inner.finish_terminal s = (refl, finish-Keeps A s.mailbox.mailbox)
  silent-Respects Inner.drop_terminal s = (refl, drop_terminal-Keeps A s.mailbox.mailbox)
