-- ===== src/Runtime/Closable.antt =====
-- runtime/src/closable_mailbox.rs: the mailbox that can be closed. Here are the producers' and the
-- consumers' methods, run one at a time; the types are in the child `State`, the close owner's
-- methods in `Terminal`, and the accesses of several threads in any order in `Concurrent`.
pub mod Raw
pub mod State
pub mod Terminal
pub mod Concurrent
pub mod Laws
use rust_jsi.Base.{
  ℕ, Bool, true, false, if◌then◌else◌, Option, Result, ok, err, Method, ◌>>=◌, ◌>>◌, give,
  unreachable, finally, returned, panicked,
}
use rust_jsi.Runtime.Queue.{ArrayQueue}
use rust_jsi.Runtime.Drain
use rust_jsi.Runtime.Drain.{DrainState, DrainRequest, DrainAcquire, DrainAfter}
use rust_jsi.Runtime.Ingress
use rust_jsi.Runtime.Ingress.{IngressClose, IngressReserveError}
use rust_jsi.Runtime.Mailbox.{MailboxEnqueue}
use State.{
  ClosableMailbox, ClosableMailboxEnqueueError, ClosableMailboxPostError, ClosableMailboxAcquire,
  enqueue_failed, post_failed, on_queue, on_signal, on_producer_gate, on_normal_drain_gate, state,
  is_pending,
}

-- The mailbox beside the host's own state, which a `post` callback acts on.
pub record Hosted {T : Type 0} (A : ArrayQueue T) (W : Type 0) : Type 0 where
  pub mailbox : ClosableMailbox A
  pub world : W

module _ {T : Type 0} (A : ArrayQueue T) where
  abbrev requested : DrainRequest → Method (ClosableMailbox A) MailboxEnqueue
  requested DrainRequest.scheduled = give MailboxEnqueue.scheduled
  requested DrainRequest.coalesced = give MailboxEnqueue.coalesced
  requested DrainRequest.closed = unreachable

  abbrev pushed :
      Result (Unit {0}) T
      → Method (ClosableMailbox A) (Result MailboxEnqueue (ClosableMailboxEnqueueError T))
  pushed (err value) = give (err (ClosableMailboxEnqueueError.full value))
  pushed (ok _) = do r ← on_signal A Drain.request; outcome ← requested r; give (ok outcome)

  -- What `enqueue` and `enqueue_and_post` do between their admission and its release or the post.
  unfoldable pub publish :
      T → Method (ClosableMailbox A) (Result MailboxEnqueue (ClosableMailboxEnqueueError T))
  unfolding Drain.request
  publish value = do r ← on_queue A (λ q. A.push q value); pushed r

  abbrev pub release_producer : Method (ClosableMailbox A) (Unit {0})
  release_producer = on_producer_gate A Ingress.settle_reservation

  abbrev admitted :
      T
      → Result (Unit {0}) IngressReserveError
      → Method (ClosableMailbox A) (Result MailboxEnqueue (ClosableMailboxEnqueueError T))
  admitted value (err _) = give (err (ClosableMailboxEnqueueError.closed value))
  admitted value (ok _) = finally (publish value) release_producer

  unfoldable pub enqueue :
      T → Method (ClosableMailbox A) (Result MailboxEnqueue (ClosableMailboxEnqueueError T))
  enqueue value = do admission ← on_producer_gate A Ingress.reserve; admitted value admission

  unfoldable pub begin_close : Method (ClosableMailbox A) IngressClose
  unfolding Ingress.begin_close
  begin_close = on_producer_gate A Ingress.begin_close

  abbrev pub release_normal : Method (ClosableMailbox A) (Unit {0})
  release_normal = on_normal_drain_gate A Ingress.settle_reservation

  abbrev unavailable : Method (ClosableMailbox A) ClosableMailboxAcquire
  unavailable = do s ← state A; give (ClosableMailboxAcquire.unavailable s)

  -- The admission lives on in the drain of `acquired`, and is dropped otherwise.
  abbrev taken : DrainAcquire → Method (ClosableMailbox A) ClosableMailboxAcquire
  taken DrainAcquire.idle = finally (give ClosableMailboxAcquire.idle) release_normal
  taken DrainAcquire.busy = finally (give ClosableMailboxAcquire.busy) release_normal
  taken DrainAcquire.closed = finally unavailable release_normal
  taken DrainAcquire.acquired = give ClosableMailboxAcquire.acquired

  abbrev admitted_drain :
      Result (Unit {0}) IngressReserveError → Method (ClosableMailbox A) ClosableMailboxAcquire
  admitted_drain (err _) = unavailable
  admitted_drain (ok _) = on_signal A Drain.acquire >>= taken

  unfoldable pub acquire : Method (ClosableMailbox A) ClosableMailboxAcquire
  acquire = do admission ← on_normal_drain_gate A Ingress.reserve; admitted_drain admission

  -- `ClosableMailboxDrain::pop`.
  unfoldable pub pop : Method (ClosableMailbox A) (Option T)
  pop = on_queue A A.pop

  abbrev kept : DrainRequest → Method (ClosableMailbox A) (Unit {0})
  kept DrainRequest.coalesced = give tt
  kept DrainRequest.scheduled = unreachable
  kept DrainRequest.closed = unreachable

  unfoldable pub preserve_retained_payloads : Method (ClosableMailbox A) (Unit {0})
  unfolding Drain.request
  preserve_retained_payloads = do
    empty ← on_queue A (λ q. (q, A.is_empty q))
    if empty then give tt else (on_signal A Drain.request >>= kept)

  -- The drop of an unfinished `ClosableMailboxDrain`, of its permit and of its admission.
  unfoldable pub drop_drain : Method (ClosableMailbox A) (Unit {0})
  drop_drain =
      finally (preserve_retained_payloads >> (on_signal A Drain.finish_drain >>= λ _. give tt))
        release_normal

  module _ {W : Type 0} where
    abbrev pub on_mailbox : {B : Type 0} → Method (ClosableMailbox A) B → Method (Hosted A W) B
    on_mailbox f h = let (b, o) = f h.mailbox in (record h { mailbox = b }, o)

    abbrev pub on_world : {B : Type 0} → (W → W × B) → Method (Hosted A W) B
    on_world f h = let (w, r) = f h.world in (record h { world = w }, returned r)

    module _ {E : Type 0} (post : W → W × Result (Unit {0}) E) where
      abbrev posted_outcome :
          MailboxEnqueue
          → Result (Unit {0}) E
          → Result MailboxEnqueue (ClosableMailboxPostError T E)
      posted_outcome outcome (ok _) = ok outcome
      posted_outcome outcome (err e) = err (post_failed e)

      abbrev posted :
          Result MailboxEnqueue (ClosableMailboxEnqueueError T)
          → Method (Hosted A W) (Result MailboxEnqueue (ClosableMailboxPostError T E))
      posted (err e) = give (err (enqueue_failed e))
      posted (ok MailboxEnqueue.coalesced) = give (ok MailboxEnqueue.coalesced)
      posted (ok MailboxEnqueue.scheduled) = do
        r ← on_world post
        give (posted_outcome MailboxEnqueue.scheduled r)

      abbrev admitted_post :
          T
          → Result (Unit {0}) IngressReserveError
          → Method (Hosted A W) (Result MailboxEnqueue (ClosableMailboxPostError T E))
      admitted_post value (err _) =
          give (err (enqueue_failed (ClosableMailboxEnqueueError.closed value)))
      admitted_post value (ok _) =
          finally (on_mailbox (publish value) >>= posted) (on_mailbox release_producer)

      unfoldable pub enqueue_and_post :
          T → Method (Hosted A W) (Result MailboxEnqueue (ClosableMailboxPostError T E))
      enqueue_and_post value = do
        admission ← on_mailbox (on_producer_gate A Ingress.reserve)
        admitted_post value admission

      abbrev retried : Result (Unit {0}) E → Result Bool E
      retried (ok _) = ok true
      retried (err e) = err e

      abbrev post_if : DrainState → Method (Hosted A W) (Result Bool E)
      post_if DrainState.pending = do r ← on_world post; give (retried r)
      post_if _ = give (ok false)

      abbrev admitted_retry :
          Result (Unit {0}) IngressReserveError → Method (Hosted A W) (Result Bool E)
      admitted_retry (err _) = give (ok false)
      admitted_retry (ok _) =
          finally (on_mailbox (on_signal A Drain.state) >>= post_if) (on_mailbox release_normal)

      unfoldable pub post_pending_with : Method (Hosted A W) (Result Bool E)
      post_pending_with = do
        admission ← on_mailbox (on_normal_drain_gate A Ingress.reserve)
        admitted_retry admission

    -- `ClosableMailboxDrain::finish_with`: the drain's admission is dropped after `operation`.
    unfoldable pub finish_with : {B : Type 0} → (DrainAfter → W → W × B) → Method (Hosted A W) B
    finish_with operation =
        finally
          (on_mailbox (preserve_retained_payloads >> on_signal A Drain.finish_drain) >>= λ after.
            on_world (operation after))
          (on_mailbox release_normal)

  -- `ClosableMailboxDrain::finish`.
  unfoldable pub finish : Method (Hosted A (Unit {0})) DrainAfter
  finish = finish_with (λ after w. (w, after))
