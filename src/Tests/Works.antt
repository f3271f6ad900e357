-- ===== src/Tests/Works.antt =====
-- host/src/work.rs, work_mailbox.rs and work_owner.rs: a small host, a mailbox of two places, and an
-- owner that has replaced its first attachment.
use rust_jsi.Base.{
  ℕ, zero, suc, ◌+◌, ◌*◌, ◌^◌, ◌≡◌, refl, List, [], ◌∷◌, none, some, Result, ok, err, returned,
  arith,
}
use rust_jsi.Runtime.Queue.{ArrayQueue, list_queue}
use rust_jsi.Runtime.Drain
use rust_jsi.Runtime.Drain.{DrainAfter}
use rust_jsi.Runtime.Ingress
use rust_jsi.Runtime.Ingress.{IngressState}
use rust_jsi.Runtime.Ingress.Spec.{Gate}
use rust_jsi.Runtime.Closable
use rust_jsi.Runtime.Closable.Laws.{IsGated}
use rust_jsi.Runtime.Closable.State.{ClosableMailboxState, state}
use rust_jsi.Runtime.Closable.Terminal
use rust_jsi.Host.Identity.{AttachmentId}
use rust_jsi.Host.Registration
use rust_jsi.Host.Work.{Host, ScheduledWork, attachment_mismatch, dispatch}
use rust_jsi.Host.Work.Laws.{dispatch_lem}
use rust_jsi.Host.WorkMailbox
use rust_jsi.Host.WorkMailbox.{
  ScheduledWorkMailbox, ScheduledWorkEnqueueError, Posting, dispatch_next, finish_and_post,
}
use rust_jsi.Host.WorkMailbox.Laws as Inner
use rust_jsi.Host.WorkMailbox.Laws.{IsBound, works-IsBound, run}
use rust_jsi.Host.WorkOwner.{
  Heap, new, begin_close, on_mailbox, try_begin_terminal_drain, replace, send, registration_failed,
}
use rust_jsi.Base.Slots.{get_elem?}
use rust_jsi.Host.WorkOwner.Calls.{Reach, start, later, act, closes, begins, replaces, on}
use rust_jsi.Host.WorkOwner.Replacing.{owner_replace_lem}
use rust_jsi.Host.WorkOwner.Laws.{stale_sender_refused}

abbrev attachment : ℕ → AttachmentId
attachment epoch = record { runtime_id = 5; epoch = epoch }

-- A host of the second attachment that counts its entries, and rejects from the third on.
abbrev admit_entry : ℕ → ℕ × Result ℕ ℕ
admit_entry (suc (suc n)) = (suc (suc n), err n)
admit_entry n = (suc n, ok n)

abbrev small_host : Host
small_host = record {
  H = ℕ;
  Backend = ℕ;
  Error = ℕ;
  attachment_id = λ h. attachment 2;
  enter = admit_entry;
  leave = λ h b. (h, none);
}

small_host_keeps : (h b : ℕ) → (small_host.leave h b).1 ≡ none
small_host_keeps h b = refl

abbrev add : ℕ → ℕ → ℕ × ℕ
add backend payload = (backend, backend + payload)

abbrev work : ℕ → ℕ → ScheduledWork ℕ
work epoch payload = record { attachment = attachment epoch; payload = payload }

dispatch_lem_example :
    (dispatch small_host add (work 1 7) 0).1 ≡ err (attachment_mismatch (work 1 7) (attachment 2))
dispatch_lem_example = ground (arith, dispatch_lem small_host add (work 1 7) 0)

abbrev numbers : ArrayQueue (ScheduledWork ℕ)
numbers = list_queue (ScheduledWork ℕ)

-- The host counts the posts, and refuses one of the fourth.
abbrev poster : AttachmentId → ℕ → ℕ × Result (Unit {0}) ℕ
poster a (suc (suc (suc zero))) = (4, err 9)
poster a w = (suc w, ok tt)

abbrev used : List (Inner.Action ℕ)
used =
    Inner.enqueue_and_post 7
    ∷ Inner.acquire
    ∷ Inner.pop
    ∷ Inner.enqueue 8
    ∷ Inner.finish_and_post
    ∷ []

works-IsBound_example :
    IsBound numbers poster
      (attachment 2)
      (run numbers poster used
        (record { mailbox = WorkMailbox.new numbers (attachment 2) 2; world = 0 })).mailbox
works-IsBound_example = works-IsBound numbers poster used (attachment 2) 2 0

abbrev gate_with : ℕ → Gate
gate_with n = record { phase = IngressState.open_gate; in_flight = n }

-- A consumer holds the drain of one work.
abbrev held : ScheduledWorkMailbox numbers
held = record {
  attachment = attachment 2;
  mailbox = record {
    queue = record { bound = 2; stored = work 2 7 ∷ [] };
    signal = 2;
    producer_gate = 0;
    normal_drain_gate = 1;
    terminal_state = 0;
  };
}

held-IsGated : IsGated numbers held.mailbox (gate_with 0) (gate_with 1)
held-IsGated = ground arith

abbrev opened : Heap numbers ℕ
opened = new numbers (attachment 1) 2 0

-- The owner closes its mailbox, and the terminal owner finishes.
abbrev first_closed : Heap numbers ℕ
first_closed =
    act numbers poster (on 0 Inner.finish_terminal)
      (act numbers poster begins (act numbers poster closes opened))

first_closed-Reach : Reach numbers poster (attachment 1) 2 0 first_closed
first_closed-Reach = later (on 0 Inner.finish_terminal) (later begins (later closes start))

-- The mailbox of the first attachment, closed for good.
abbrev retired_mailbox : ScheduledWorkMailbox numbers
retired_mailbox = record {
  attachment = attachment 1;
  mailbox = record {
    queue = record { bound = 2; stored = [] };
    signal = 4;
    producer_gate = 2 * 2 ^ 62;
    normal_drain_gate = 2 * 2 ^ 62;
    terminal_state = 3;
  };
}

first_closed_mailbox :
    get_elem? first_closed.mailboxes first_closed.owner.mailbox ≡ some retired_mailbox
unfolding begin_close on_mailbox try_begin_terminal_drain Closable.begin_close
    Terminal.try_begin_terminal_drain Terminal.finish_terminal Terminal.drop_terminal
    Ingress.try_seal Ingress.begin_close Drain.close Terminal.complete_program
    Terminal.claim_program
first_closed_mailbox = refl

retired_mailbox_state :
    (state numbers retired_mailbox.mailbox).1 ≡ returned ClosableMailboxState.closed
unfolding state
retired_mailbox_state = refl

first_not_newer :
    (Registration.replace (attachment 1) first_closed.owner.registration).1
    ≡ err Registration.DrainRegistrationReplaceError.not_newer
unfolding begin_close on_mailbox try_begin_terminal_drain Closable.begin_close
    Terminal.try_begin_terminal_drain Terminal.finish_terminal Terminal.drop_terminal
    Ingress.try_seal Ingress.begin_close Drain.close Terminal.complete_program
    Terminal.claim_program Registration.replace Registration.begin_close
first_not_newer = refl

owner_replace_lem_example :
    (replace numbers (attachment 1) 2 first_closed).1
    ≡ returned (err (registration_failed Registration.DrainRegistrationReplaceError.not_newer))
owner_replace_lem_example = ground (
  arith,
  owner_replace_lem numbers first_closed retired_mailbox ClosableMailboxState.closed (attachment 1)
      2 first_closed_mailbox retired_mailbox_state,
  first_not_newer,
)

-- The second attachment replaces the first.
abbrev replaced : Heap numbers ℕ
replaced = act numbers poster (replaces (attachment 2) 2) first_closed

replaced-Reach : Reach numbers poster (attachment 1) 2 0 replaced
replaced-Reach = later (replaces (attachment 2) 2) first_closed-Reach

replaced_mailboxes :
    (get_elem? replaced.mailboxes 0 ≡ some retired_mailbox) × (replaced.owner.mailbox ≡ 1)
unfolding begin_close on_mailbox try_begin_terminal_drain Closable.begin_close
    Terminal.try_begin_terminal_drain Terminal.finish_terminal Terminal.drop_terminal
    Ingress.try_seal Ingress.begin_close Drain.close Terminal.complete_program
    Terminal.claim_program replace Registration.replace Registration.begin_close state
replaced_mailboxes = (refl, refl)

stale_sender_refused_example :
    send numbers (record { mailbox = 0 }) 9 replaced
    ≡ (replaced, returned (err (ScheduledWorkEnqueueError.closed (work 1 9))))
stale_sender_refused_example =
    stale_sender_refused numbers poster 0 retired_mailbox 9 replaced-Reach replaced_mailboxes.0
      (rw (replaced_mailboxes.1) (λ e. omega arith))
