-- ===== src/Host/WorkOwner.antt =====
-- host/src/work_owner.rs: the owner of an attachment's work, and its senders. An `Arc` of a mailbox is
-- the mailbox's place in a store that only grows, so that senders and owner share what they point to.
pub mod Replacing
pub mod Calls
pub mod Laws
use rust_jsi.Base.{
  ℕ, zero, suc, Bool, true, false, if◌then◌else◌, List, [], ◌∷◌, ◌++◌, length, Option, none, some,
  Result, ok, err, Outcome, returned, panicked, Method, ◌>>=◌, give, map_err,
}
use rust_jsi.Runtime.Queue.{ArrayQueue}
use rust_jsi.Runtime.Ingress.{IngressClose}
use rust_jsi.Runtime.Mailbox.{MailboxEnqueue}
use rust_jsi.Runtime.Closable.State.{ClosableMailboxState, TerminalAcquireError}
use rust_jsi.Host.Identity.{AttachmentId}
use rust_jsi.Host.Registration
use rust_jsi.Host.Registration.{
  DrainRegistration, DrainRegistrationState, DrainTaskResolution, DrainRegistrationReplaceError,
}
use rust_jsi.Host.Work.{ScheduledWork}
use rust_jsi.Host.WorkMailbox
use rust_jsi.Base.Slots.{get_elem?, set}
use rust_jsi.Host.WorkMailbox.{
  ScheduledWorkMailbox, ScheduledWorkEnqueueError, ScheduledWorkPostError, Posting,
}

pub data AttachmentWorkResolution : Type 0 where
  current : (mailbox : ℕ) → AttachmentWorkResolution
  closing retired unregistered_attachment foreign_runtime : AttachmentWorkResolution

pub data AttachmentWorkReplaceError : Type 0 where
  mailbox_not_terminally_closed : ClosableMailboxState → AttachmentWorkReplaceError
  registration_failed : DrainRegistrationReplaceError → AttachmentWorkReplaceError

-- The place of the mailbox that a `ScheduledWorkSender` enqueues into.
pub record ScheduledWorkSender : Type 0 where
  pub mailbox : ℕ

pub record AttachmentWorkOwner : Type 0 where
  pub registration : DrainRegistration
  pub mailbox : ℕ

-- The owner, the mailboxes that were ever made, and the host's own state.
pub record Heap {T : Type 0} (A : ArrayQueue (ScheduledWork T)) (W : Type 0) : Type 0 where
  pub owner : AttachmentWorkOwner
  pub mailboxes : List (ScheduledWorkMailbox A)
  pub world : W

abbrev lent : ℕ → DrainTaskResolution → AttachmentWorkResolution
lent i DrainTaskResolution.current = AttachmentWorkResolution.current i
lent i DrainTaskResolution.closing = AttachmentWorkResolution.closing
lent i DrainTaskResolution.retired = AttachmentWorkResolution.retired
lent i DrainTaskResolution.unregistered_attachment =
    AttachmentWorkResolution.unregistered_attachment
lent i DrainTaskResolution.foreign_runtime = AttachmentWorkResolution.foreign_runtime

abbrev closing_owner : AttachmentWorkOwner → AttachmentWorkOwner
closing_owner self = record self { registration = Registration.begin_close self.registration }

module _ {T W : Type 0} (A : ArrayQueue (ScheduledWork T)) where
  abbrev pub new : AttachmentId → ℕ → W → Heap A W
  new attachment capacity w = record {
    owner = record { registration = Registration.new attachment; mailbox = 0 };
    mailboxes = WorkMailbox.new A attachment capacity ∷ [];
    world = w;
  }

  abbrev written : {B : Type 0} → Heap A W → ℕ → Posting A W × Outcome B → Heap A W × Outcome B
  written self i (s, o) =
      (record self { mailboxes = set self.mailboxes i s.mailbox; world = s.world }, o)

  -- A call on the mailbox at a place; no place is left empty.
  abbrev at :
      {B : Type 0}
      → Method (Posting A W) B
      → Heap A W
      → ℕ
      → Option (ScheduledWorkMailbox A)
      → Heap A W × Outcome B
  at f self i none = (self, panicked)
  at f self i (some b) = written self i (f (record { mailbox = b; world = self.world }))

  unfoldable pub on_mailbox : {B : Type 0} → ℕ → Method (Posting A W) B → Method (Heap A W) B
  on_mailbox i f self = at f self i (get_elem? self.mailboxes i)

  -- A method of the mailbox that does not post.
  abbrev pub alone : {B : Type 0} → Method (ScheduledWorkMailbox A) B → Method (Posting A W) B
  alone f s = let (b, o) = f s.mailbox in (record s { mailbox = b }, o)

  abbrev pub sender : Heap A W → ScheduledWorkSender
  sender self = record { mailbox = self.owner.mailbox }

  unfoldable pub resolve_drain_task : Heap A W → AttachmentId → AttachmentWorkResolution
  resolve_drain_task self attachment =
      lent self.owner.mailbox (Registration.resolve self.owner.registration attachment)

  unfoldable pub begin_close : Method (Heap A W) IngressClose
  begin_close self =
      on_mailbox self.owner.mailbox (alone (WorkMailbox.begin_close A))
        (record self { owner = closing_owner self.owner })

  unfoldable pub try_begin_terminal_drain :
      Method (Heap A W) (Result (Unit {0}) TerminalAcquireError)
  try_begin_terminal_drain self =
      on_mailbox self.owner.mailbox (alone (WorkMailbox.try_begin_terminal_drain A)) self

  abbrev installed :
      ScheduledWorkMailbox A
      → Heap A W
      → DrainRegistration × Result (Unit {0}) DrainRegistrationReplaceError
      → Heap A W × Outcome (Result (Unit {0}) AttachmentWorkReplaceError)
  installed replacement_mailbox self (registration, err e) = (
    record self { owner = record (self.owner) { registration = registration } },
    returned (err (registration_failed e)),
  )
  installed replacement_mailbox self (registration, ok _) = (
    record self {
      owner = record { registration = registration; mailbox = length self.mailboxes };
      mailboxes = self.mailboxes ++ replacement_mailbox ∷ [];
    },
    returned (ok tt),
  )

  abbrev replace_after :
      AttachmentId
      → ℕ
      → ClosableMailboxState
      → Method (Heap A W) (Result (Unit {0}) AttachmentWorkReplaceError)
  replace_after replacement capacity ClosableMailboxState.closed self =
      installed (WorkMailbox.new A replacement capacity) self
        (Registration.replace replacement self.owner.registration)
  replace_after replacement capacity old_state self =
      (self, returned (err (mailbox_not_terminally_closed old_state)))

  unfoldable pub replace :
      AttachmentId → ℕ → Method (Heap A W) (Result (Unit {0}) AttachmentWorkReplaceError)
  replace replacement capacity self =
      (do
        old_state ← on_mailbox self.owner.mailbox (alone (WorkMailbox.state A))
        replace_after replacement capacity old_state)
        self

  -- `ScheduledWorkSender::enqueue`.
  unfoldable pub send :
      ScheduledWorkSender
      → T
      → Method (Heap A W) (Result MailboxEnqueue (ScheduledWorkEnqueueError T))
  send s payload = on_mailbox s.mailbox (alone (WorkMailbox.enqueue A payload))

  module _ {E : Type 0} (poster : AttachmentId → W → W × Result (Unit {0}) E) where
    -- `ScheduledWorkSender::enqueue_and_post`.
    unfoldable pub send_and_post :
        ScheduledWorkSender
        → T
        → Method (Heap A W) (Result MailboxEnqueue (ScheduledWorkPostError T E))
    send_and_post s payload = on_mailbox s.mailbox (WorkMailbox.enqueue_and_post A poster payload)

    abbrev pub post_when : DrainRegistrationState → ℕ → Method (Heap A W) (Result Bool E)
    post_when DrainRegistrationState.active i = on_mailbox i (WorkMailbox.post_pending A poster)
    post_when DrainRegistrationState.closing i = give (ok false)

    unfoldable pub post_pending : Method (Heap A W) (Result Bool E)
    post_pending self = post_when self.owner.registration.state self.owner.mailbox self
