-- ===== src/Runtime/Mailbox/Concurrent.antt =====
-- runtime/src/mailbox.rs under any number of producer and consumer threads. A step is one access of
-- the queue or of the signal; each of the signal's methods is taken as a single step.
pub mod Safety
use rust_jsi.Base.{
  ℕ, ◌+◌, ◌-◌, ◌<◌, ◌≤◌, ◌≡◌, ◌≢◌, ◌⊎◌, inl, inr, List, [], ◌∷◌, Outcome, returned, panicked, arith,
  if◌then◌else◌, ◌==◌, Result, ok, err, length,
}
use rust_jsi.Runtime.Queue.{ArrayQueue, push-cases, pop-cases}
use rust_jsi.Runtime.Drain
use rust_jsi.Runtime.Drain.{DrainRequest, DrainAcquire, DrainAfter}
use rust_jsi.Runtime.Drain.Raw
use rust_jsi.Runtime.Mailbox.{BoundedMailbox, new}
use rust_jsi.Runtime.Mailbox.Laws.{contents}

-- The mailbox, how many threads stand at each point of its methods, and how many posts the host
-- still owes to a drain that it was asked for.
pub record System {T : Type 0} (A : ArrayQueue T) : Type 0 where
  pub mailbox : BoundedMailbox A
  pub publishing : ℕ  -- in `enqueue`, after its push
  pub working : ℕ  -- holding a `MailboxDrain`
  pub retaining : ℕ  -- in `preserve_retained_payloads`, which has found a payload
  pub leaving : ℕ  -- before `finish_drain`
  pub posts : ℕ

pub data Action (T : Type 0) : Type 0 where
  push : T → Action T
  request acquire pop check retain finish : Action T

abbrev pub request_posts : Outcome DrainRequest → ℕ
request_posts (returned DrainRequest.scheduled) = 1
request_posts _ = 0

abbrev pub finish_posts : Outcome DrainAfter → ℕ
finish_posts (returned DrainAfter.pending) = 1
finish_posts _ = 0

abbrev pub granted : Outcome DrainAcquire → ℕ
granted (returned DrainAcquire.acquired) = 1
granted _ = 0

abbrev accepted : {T : Type 0} → Result (Unit {0}) T → ℕ
accepted (ok _) = 1
accepted (err _) = 0

module _ {T : Type 0} (A : ArrayQueue T) where
  abbrev pub items : System A → List T
  items s = contents A s.mailbox

  abbrev pub signal : System A → ℕ
  signal s = s.mailbox.signal

  -- A thread stands where the action is taken.
  abbrev pub IsEnabled : Action T → System A → Type 0
  IsEnabled (push x) s = Unit
  IsEnabled request s = 0 < s.publishing
  IsEnabled acquire s = Unit
  IsEnabled pop s = 0 < s.working
  IsEnabled check s = 0 < s.working
  IsEnabled retain s = 0 < s.retaining
  IsEnabled finish s = 0 < s.leaving

  abbrev with_queue : System A → A.Q → System A
  with_queue s q = record s { mailbox = record { queue = q; signal = s.mailbox.signal } }

  abbrev with_signal : System A → ℕ → System A
  with_signal s m = record s { mailbox = record { queue = s.mailbox.queue; signal = m } }

  unfoldable pub step : Action T → System A → System A
  unfolding Drain.request Drain.acquire Drain.finish_drain
  step (push x) s =
      let (q, r) = A.push s.mailbox.queue x in
      record (with_queue s q) { publishing = s.publishing + accepted r }
  step request s =
      let (m, o) = Drain.request (signal s) in
      record (with_signal s m) { publishing = s.publishing - 1; posts = s.posts + request_posts o }
  step acquire s =
      let (m, o) = Drain.acquire (signal s) in
      record (with_signal s m) { working = s.working + granted o; posts = s.posts - granted o }
  step pop s = with_queue s (A.pop s.mailbox.queue).0
  step check s =
      if A.is_empty s.mailbox.queue
      then record s { working = s.working - 1; leaving = s.leaving + 1 }
      else record s { working = s.working - 1; retaining = s.retaining + 1 }
  step retain s =
      let (m, o) = Drain.request (signal s) in
      record (with_signal s m) {
        retaining = s.retaining - 1;
        leaving = s.leaving + 1;
        posts = s.posts + request_posts o;
      }
  step finish s =
      let (m, o) = Drain.finish_drain (signal s) in
      record (with_signal s m) { leaving = s.leaving - 1; posts = s.posts + finish_posts o }

  abbrev pub init : ℕ → System A
  init n = record {
    mailbox = new A n;
    publishing = 0;
    working = 0;
    retaining = 0;
    leaving = 0;
    posts = 0;
  }

  pub data Reach (n : ℕ) : System A → Type 0 where
    start : Reach n (init n)
    later : {s : System A} (a : Action T) → Reach n s → IsEnabled a s → Reach n (step a s)
