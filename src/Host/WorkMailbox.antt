-- ===== src/Host/WorkMailbox.antt =====
-- host/src/work_mailbox.rs: a closable mailbox of work that is bound to one attachment. A `poster` is
-- the method `post_drain` of a `DrainPoster`, on the host's own state.
pub mod Laws
use rust_jsi.Base.{
  ℕ, Bool, true, false, if◌then◌else◌, Option, none, some, Result, ok, err, Outcome, returned,
  panicked, Method, ◌>>=◌, give, map_ok, map_err,
}
use rust_jsi.Runtime.Queue.{ArrayQueue}
use rust_jsi.Runtime.Drain.{DrainAfter}
use rust_jsi.Runtime.Ingress.{IngressClose}
use rust_jsi.Runtime.Mailbox.{MailboxEnqueue}
use rust_jsi.Runtime.Closable.State.{
  ClosableMailbox, ClosableMailboxState, ClosableMailboxEnqueueError, ClosableMailboxPostError,
  ClosableMailboxAcquire, TerminalAcquireError, TerminalDrainFinishError, enqueue_failed,
  post_failed,
}
use rust_jsi.Runtime.Closable.State
use rust_jsi.Runtime.Closable
use rust_jsi.Runtime.Closable.{Hosted}
use rust_jsi.Runtime.Closable.Terminal
use rust_jsi.Host.Identity.{AttachmentId}
use rust_jsi.Host.Work.{Host, ScheduledWork, WorkDispatchError, dispatch}

pub data ScheduledWorkEnqueueError (T : Type 0) : Type 0 where
  full : ScheduledWork T → ScheduledWorkEnqueueError T
  closed : ScheduledWork T → ScheduledWorkEnqueueError T

pub data ScheduledWorkPostError (T E : Type 0) : Type 0 where
  enqueue_refused : ScheduledWorkEnqueueError T → ScheduledWorkPostError T E
  post_refused : (attachment : AttachmentId) (error : E) → ScheduledWorkPostError T E

pub data ScheduledWorkFinishError (E : Type 0) : Type 0 where
  post : (attachment : AttachmentId) (error : E) → ScheduledWorkFinishError E

pub data ScheduledWorkAcquire : Type 0 where
  idle acquired busy unavailable : ScheduledWorkAcquire

pub record ScheduledWorkMailbox {T : Type 0} (A : ArrayQueue (ScheduledWork T)) : Type 0 where
  pub attachment : AttachmentId
  pub mailbox : ClosableMailbox A

-- The mailbox beside the host's own state, which a poster acts on.
pub record Posting {T : Type 0} (A : ArrayQueue (ScheduledWork T)) (W : Type 0) : Type 0 where
  pub mailbox : ScheduledWorkMailbox A
  pub world : W

abbrev enqueue_error :
    {T : Type 0} → ClosableMailboxEnqueueError (ScheduledWork T) → ScheduledWorkEnqueueError T
enqueue_error (ClosableMailboxEnqueueError.full work) = ScheduledWorkEnqueueError.full work
enqueue_error (ClosableMailboxEnqueueError.closed work) = ScheduledWorkEnqueueError.closed work

abbrev post_error :
    {T E : Type 0}
    → AttachmentId
    → ClosableMailboxPostError (ScheduledWork T) E
    → ScheduledWorkPostError T E
post_error attachment (enqueue_failed e) = enqueue_refused (enqueue_error e)
post_error attachment (post_failed e) = post_refused attachment e

abbrev acquired_work : ClosableMailboxAcquire → ScheduledWorkAcquire
acquired_work ClosableMailboxAcquire.idle = ScheduledWorkAcquire.idle
acquired_work ClosableMailboxAcquire.busy = ScheduledWorkAcquire.busy
acquired_work (ClosableMailboxAcquire.unavailable s) = ScheduledWorkAcquire.unavailable
acquired_work ClosableMailboxAcquire.acquired = ScheduledWorkAcquire.acquired

module _ {T : Type 0} (A : ArrayQueue (ScheduledWork T)) where
  abbrev pub new : AttachmentId → ℕ → ScheduledWorkMailbox A
  new attachment capacity = record { attachment = attachment; mailbox = State.new A capacity }

  abbrev pub on_inner :
      {B : Type 0} → Method (ClosableMailbox A) B → Method (ScheduledWorkMailbox A) B
  on_inner f self = let (b, o) = f self.mailbox in (record self { mailbox = b }, o)

  abbrev pub state : Method (ScheduledWorkMailbox A) ClosableMailboxState
  state = on_inner (State.state A)

  abbrev is_closed : ClosableMailboxState → Bool
  is_closed ClosableMailboxState.closed = true
  is_closed _ = false

  unfoldable pub is_terminally_closed : Method (ScheduledWorkMailbox A) Bool
  is_terminally_closed = do s ← state; give (is_closed s)

  unfoldable pub enqueue :
      T → Method (ScheduledWorkMailbox A) (Result MailboxEnqueue (ScheduledWorkEnqueueError T))
  enqueue payload self =
      (do
        r ←
            on_inner
              (Closable.enqueue A (record { attachment = self.attachment; payload = payload }))
        give (map_err enqueue_error r))
        self

  abbrev pub begin_close : Method (ScheduledWorkMailbox A) IngressClose
  begin_close = on_inner (Closable.begin_close A)

  unfoldable pub acquire : Method (ScheduledWorkMailbox A) ScheduledWorkAcquire
  acquire = do r ← on_inner (Closable.acquire A); give (acquired_work r)

  abbrev pub try_begin_terminal_drain :
      Method (ScheduledWorkMailbox A) (Result (Unit {0}) TerminalAcquireError)
  try_begin_terminal_drain = on_inner (Terminal.try_begin_terminal_drain A)

  -- `ScheduledWorkDrain::pop`.
  abbrev pub pop : Method (ScheduledWorkMailbox A) (Option (ScheduledWork T))
  pop = on_inner (Closable.pop A)

  -- `TerminalScheduledWorkDrain::pop` and `finish`.
  abbrev pub pop_terminal : Method (ScheduledWorkMailbox A) (Option (ScheduledWork T))
  pop_terminal = on_inner (Terminal.pop_terminal A)

  abbrev pub finish_terminal :
      Method (ScheduledWorkMailbox A) (Result (Unit {0}) TerminalDrainFinishError)
  finish_terminal = on_inner (Terminal.finish_terminal A)

  module _ {W : Type 0} where
    abbrev pub on_hosted : {B : Type 0} → Method (Hosted A W) B → Method (Posting A W) B
    on_hosted f h =
        let (k, o) = f (record { mailbox = h.mailbox.mailbox; world = h.world }) in
        (
          record {
            mailbox = record { attachment = h.mailbox.attachment; mailbox = k.mailbox };
            world = k.world;
          },
          o,
        )

    -- `ScheduledWorkDrain::finish`.
    abbrev pub finish : Method (Posting A W) DrainAfter
    finish = on_hosted (Closable.finish_with A (λ after w. (w, after)))

    module _ {E : Type 0} (poster : AttachmentId → W → W × Result (Unit {0}) E) where
      unfoldable pub enqueue_and_post :
          T → Method (Posting A W) (Result MailboxEnqueue (ScheduledWorkPostError T E))
      enqueue_and_post payload self =
          let attachment = self.mailbox.attachment in
          (do
            r ← on_hosted (
                Closable.enqueue_and_post A (poster attachment)
                  (record { attachment = attachment; payload = payload }))
            give (map_err (post_error attachment) r))
            self

      unfoldable pub post_pending : Method (Posting A W) (Result Bool E)
      post_pending self =
          on_hosted (Closable.post_pending_with A (poster self.mailbox.attachment)) self

      abbrev posted_after :
          AttachmentId
          → DrainAfter
          → W × Result (Unit {0}) E
          → W × Result DrainAfter (ScheduledWorkFinishError E)
      posted_after attachment after (w, ok _) = (w, ok after)
      posted_after attachment after (w, err error) =
          (w, err (ScheduledWorkFinishError.post attachment error))

      abbrev pub post_if_pending :
          AttachmentId → DrainAfter → W → W × Result DrainAfter (ScheduledWorkFinishError E)
      post_if_pending attachment DrainAfter.pending w =
          posted_after attachment DrainAfter.pending (poster attachment w)
      post_if_pending attachment after w = (w, ok after)

      -- `ScheduledWorkDrain::finish_and_post`.
      unfoldable pub finish_and_post :
          Method (Posting A W) (Result DrainAfter (ScheduledWorkFinishError E))
      finish_and_post self =
          on_hosted (Closable.finish_with A (post_if_pending self.mailbox.attachment)) self

  module _ (H : Host) {R : Type 0} (operation : H.Backend → T → H.Backend × R) where
    abbrev dispatch_popped :
        H.H
        → Outcome (Option (ScheduledWork T))
        → H.H × Outcome (Result (Option R) (WorkDispatchError T H.Error))
    dispatch_popped host panicked = (host, panicked)
    dispatch_popped host (returned none) = (host, returned (ok none))
    dispatch_popped host (returned (some work)) =
        let (k, r) = dispatch H operation work host in (k, returned (map_ok some r))

    -- `ScheduledWorkDrain::dispatch_next`.
    unfoldable pub dispatch_next :
        H.H
        → ScheduledWorkMailbox A
        → ScheduledWorkMailbox A × H.H × Outcome (Result (Option R) (WorkDispatchError T H.Error))
    dispatch_next host self =
        let (b, o) = pop self in let (k, r) = dispatch_popped host o in (b, k, r)
