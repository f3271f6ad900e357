-- ===== src/Runtime/Mailbox.antt =====
-- runtime/src/mailbox.rs: a bounded queue of payloads beside a drain signal. The methods are run one
-- at a time; the accesses of several threads in any order are the matter of the child `Concurrent`.
pub mod Laws
pub mod Concurrent
use rust_jsi.Base.{
  ℕ, Bool, true, false, if◌then◌else◌, Option, Result, ok, err, Method, Outcome, returned, panicked,
  ◌>>=◌, ◌>>◌, give, unreachable, map_ok, ◌==◌,
}
use rust_jsi.Runtime.Queue.{ArrayQueue}
use rust_jsi.Runtime.Drain
use rust_jsi.Runtime.Drain.{DrainState, DrainRequest, DrainAcquire, DrainAfter}

pub data MailboxEnqueue : Type 0 where
  scheduled coalesced : MailboxEnqueue

pub data MailboxEnqueueError (T : Type 0) : Type 0 where
  full : T → MailboxEnqueueError T

-- The `MailboxDrain` of `acquired` is the right to `pop`, and to `finish` or `drop_drain` once.
pub data MailboxAcquire : Type 0 where
  idle acquired busy : MailboxAcquire

pub record BoundedMailbox {T : Type 0} (A : ArrayQueue T) : Type 0 where
  pub queue : A.Q
  pub signal : ℕ

module _ {T : Type 0} (A : ArrayQueue T) where
  -- A call on one of the fields.
  abbrev pub on_queue : {B : Type 0} → (A.Q → A.Q × B) → Method (BoundedMailbox A) B
  on_queue f b = let (q, r) = f b.queue in (record b { queue = q }, returned r)

  abbrev pub on_signal : {B : Type 0} → Method ℕ B → Method (BoundedMailbox A) B
  on_signal f b = let (m, o) = f b.signal in (record b { signal = m }, o)

  abbrev pub new : ℕ → BoundedMailbox A
  new capacity = record { queue = A.new capacity; signal = Drain.new }

  abbrev pub capacity : BoundedMailbox A → ℕ
  capacity b = A.capacity b.queue

  abbrev pub len : BoundedMailbox A → ℕ
  len b = A.len b.queue

  abbrev pub is_empty : BoundedMailbox A → Bool
  is_empty b = A.is_empty b.queue

  abbrev is_pending : DrainState → Bool
  is_pending DrainState.pending = true
  is_pending _ = false

  unfoldable pub is_drain_pending : Method (BoundedMailbox A) Bool
  unfolding Drain.state
  is_drain_pending = do s ← on_signal Drain.state; give (is_pending s)

  abbrev requested :
      DrainRequest → Method (BoundedMailbox A) (Result MailboxEnqueue (MailboxEnqueueError T))
  requested DrainRequest.scheduled = give (ok MailboxEnqueue.scheduled)
  requested DrainRequest.coalesced = give (ok MailboxEnqueue.coalesced)
  requested DrainRequest.closed = unreachable

  abbrev pushed :
      Result (Unit {0}) T
      → Method (BoundedMailbox A) (Result MailboxEnqueue (MailboxEnqueueError T))
  pushed (err value) = give (err (full value))
  pushed (ok _) = on_signal Drain.request >>= requested

  unfoldable pub enqueue :
      T → Method (BoundedMailbox A) (Result MailboxEnqueue (MailboxEnqueueError T))
  unfolding Drain.request
  enqueue value = do r ← on_queue (λ q. A.push q value); pushed r

  abbrev taken : DrainAcquire → Method (BoundedMailbox A) MailboxAcquire
  taken DrainAcquire.idle = give MailboxAcquire.idle
  taken DrainAcquire.acquired = give MailboxAcquire.acquired
  taken DrainAcquire.busy = give MailboxAcquire.busy
  taken DrainAcquire.closed = unreachable

  unfoldable pub acquire : Method (BoundedMailbox A) MailboxAcquire
  unfolding Drain.acquire
  acquire = on_signal Drain.acquire >>= taken

  -- `MailboxDrain::pop`.
  unfoldable pub pop : Method (BoundedMailbox A) (Option T)
  pop = on_queue A.pop

  abbrev kept : DrainRequest → Method (BoundedMailbox A) (Unit {0})
  kept DrainRequest.coalesced = give tt
  kept DrainRequest.scheduled = unreachable
  kept DrainRequest.closed = unreachable

  unfoldable pub preserve_retained_payloads : Method (BoundedMailbox A) (Unit {0})
  unfolding Drain.request
  preserve_retained_payloads = do
    empty ← on_queue (λ q. (q, A.is_empty q))
    if empty then give tt else (on_signal Drain.request >>= kept)

  -- `MailboxDrain::finish`.
  unfoldable pub finish : Method (BoundedMailbox A) DrainAfter
  unfolding preserve_retained_payloads Drain.finish_drain
  finish = do preserve_retained_payloads; on_signal Drain.finish_drain

  -- The drop of an unfinished `MailboxDrain`, and of the permit in it.
  unfoldable pub drop_drain : Method (BoundedMailbox A) (Unit {0})
  unfolding preserve_retained_payloads Drain.finish_drain
  drop_drain = do preserve_retained_payloads; _ ← on_signal Drain.finish_drain; give tt
