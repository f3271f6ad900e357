-- ===== src/Host/WorkOwner/Replacing.antt =====
-- host/src/work_owner.rs: what a replacement does, on every branch.
use rust_jsi.Base.{
  ℕ, ◌≡◌, ◌≢◌, ◌⊎◌, inl, inr, refl, [], ◌∷◌, ◌++◌, length, some, ok, err, Outcome, returned,
  panicked, arith,
}
use rust_jsi.Runtime.Queue.{ArrayQueue}
use rust_jsi.Runtime.Closable.State.{ClosableMailboxState, state}
use rust_jsi.Runtime.Closable.Laws.Final.{state-reads}
use rust_jsi.Host.Identity.{AttachmentId}
use rust_jsi.Host.Registration
use rust_jsi.Host.Registration.{DrainRegistration, DrainRegistrationState}
use rust_jsi.Host.Work.{ScheduledWork}
use rust_jsi.Host.WorkMailbox
use rust_jsi.Host.WorkMailbox.{ScheduledWorkMailbox, Posting, ScheduledWorkEnqueueError}
use rust_jsi.Host.WorkOwner.{
  Heap, on_mailbox, alone, replace, mailbox_not_terminally_closed, registration_failed,
}
use rust_jsi.Base.Slots.{get_elem?, set-same}

pub replaced_current :
    (a : AttachmentId) (r : DrainRegistration)
    → (Registration.replace a r).1 ≡ ok tt
    → (Registration.replace a r).0.current ≡ a
unfolding Registration.replace
replaced_current a r h = ground arith

pub Replied :
    (o : Outcome ClosableMailboxState)
    → (o ≡ panicked) ⊎ ((s : ClosableMailboxState) × (o ≡ returned s))
Replied panicked = inl refl
Replied (returned s) = inr (s, refl)

module _ {T W : Type 0} (A : ArrayQueue (ScheduledWork T)) where
  state-on :
      (self : Heap A W) (i : ℕ) (b : ScheduledWorkMailbox A)
      → get_elem? self.mailboxes i ≡ some b
      → on_mailbox A i (alone A (WorkMailbox.state A)) self ≡ (self, (state A b.mailbox).1)
  unfolding on_mailbox
  state-on self i b e = rw (e, state-reads A b.mailbox, set-same self.mailboxes i b e) refl

  -- A replacement succeeds exactly when the current mailbox is closed and the registration takes the
  -- replacement: then the owner points to a new mailbox for it, at the end of the store, and the
  -- mailboxes that senders still hold are as they were. On any other answer nothing changes.
  pub owner_replace_lem :
      (self : Heap A W) (b : ScheduledWorkMailbox A) (s : ClosableMailboxState) (a : AttachmentId)
      (n : ℕ)
      → get_elem? self.mailboxes self.owner.mailbox ≡ some b
      → (state A b.mailbox).1 ≡ returned s
      → let (k, r) = replace A a n self in
        let (q, o) = Registration.replace a self.owner.registration in
        ((s ≡ ClosableMailboxState.closed)
          × (o ≡ ok tt)
          × (r ≡ returned (ok tt))
          × (k ≡ record self {
            owner = record { registration = q; mailbox = length self.mailboxes };
            mailboxes = self.mailboxes ++ WorkMailbox.new A a n ∷ [];
          }))
        ⊎ ((s ≡ ClosableMailboxState.closed)
            × (e : Registration.DrainRegistrationReplaceError) × (o ≡ err e)
            × (k ≡ self)
            × (r ≡ returned (err (registration_failed e))))
        ⊎ ((s ≢ ClosableMailboxState.closed)
            × (k ≡ self)
            × (r ≡ returned (err (mailbox_not_terminally_closed s))))
  unfolding replace Registration.replace
  owner_replace_lem self b s a n found reads =
      ground (arith, state-on self self.owner.mailbox b found, reads)

  pub replace_stuck :
      (self : Heap A W) (b : ScheduledWorkMailbox A) (a : AttachmentId) (n : ℕ)
      → get_elem? self.mailboxes self.owner.mailbox ≡ some b
      → (state A b.mailbox).1 ≡ panicked
      → (replace A a n self).0 ≡ self
  unfolding replace
  replace_stuck self b a n found stuck =
      ground (arith, state-on self self.owner.mailbox b found, stuck)
