-- ===== src/Runtime/Mailbox/Concurrent/Safety.antt =====
-- runtime/src/mailbox.rs under threads: what holds in every reachable state.
use rust_jsi.Base.{ℕ, ◌+◌, ◌<◌, ◌≤◌, ◌≡◌, ◌≢◌, ◌⊎◌, [], returned, arith, if◌then◌else◌, ◌==◌}
use rust_jsi.Runtime.Queue.{ArrayQueue, push-cases, pop-cases}
use rust_jsi.Runtime.Drain
use rust_jsi.Runtime.Drain.{DrainRequest, DrainAcquire, DrainAfter}
use rust_jsi.Runtime.Drain.Raw
use rust_jsi.Runtime.Mailbox.Concurrent.{
  System, Action, push, request, acquire, pop, check, retain, finish, items, signal, IsEnabled,
  step, init, Reach, start, later,
}

module _ {T : Type 0} (A : ArrayQueue T) where
  abbrev pub holders : System A → ℕ
  holders s = s.working + s.retaining + s.leaving

  pub record Inv (s : System A) : Type 0 where
    pub live : signal A s < Raw.closed
    pub held :
        (((signal A s ≡ Raw.draining) ⊎ (signal A s ≡ Raw.draining_pending)) × (holders s ≡ 1))
        ⊎ (((signal A s ≡ Raw.idle) ⊎ (signal A s ≡ Raw.pending)) × (holders s ≡ 0))
    pub owed : s.posts ≡ (if signal A s == Raw.pending then 1 else 0)
    pub heard : signal A s ≡ Raw.idle → s.publishing ≡ 0 → items A s ≡ []
    pub swept : 0 < s.leaving → signal A s ≡ Raw.draining → s.publishing ≡ 0 → items A s ≡ []

  init-Inv : (n : ℕ) → Inv (init A n)
  init-Inv n = ground (arith, A.items-new n)

  step-Inv : (a : Action T) (s : System A) → IsEnabled A a s → Inv s → Inv (step A a s)
  unfolding step
  step-Inv (push x) s e v = ground (arith, push-cases A s.mailbox.queue x)
  step-Inv request s e v = ground arith
  step-Inv acquire s e v = ground arith
  step-Inv pop s e v = ground (arith, pop-cases A s.mailbox.queue)
  step-Inv check s e v = ground (arith, A.is_empty-items s.mailbox.queue)
  step-Inv retain s e v = ground arith
  step-Inv finish s e v = ground arith

  pub Reach-Inv : {n : ℕ} {s : System A} → Reach A n s → Inv s
  Reach-Inv {n} start = init-Inv n
  Reach-Inv (later {s} a r e) = step-Inv a s e (Reach-Inv r)

  -- No payload is stranded: whenever one is stored and no producer is between its push and its
  -- request, either the signal is pending and exactly one host post is owed to it, or a consumer
  -- that has not yet looked for payloads holds the drain, or the consumer that is about to finish
  -- it will find a pending successor.
  pub payload_is_announced :
      {n : ℕ} {s : System A}
      → Reach A n s
      → s.publishing ≡ 0
      → items A s ≢ []
      → ((signal A s ≡ Raw.pending) × (s.posts ≡ 1))
        ⊎ (0 < s.working + s.retaining)
        ⊎ ((0 < s.leaving) × (signal A s ≡ Raw.draining_pending))
  payload_is_announced {s} r quiet some_left = let v = Reach-Inv r in ground arith

  -- At most one consumer holds the drain, at most one post is owed, and never both at once.
  pub one_drain : {n : ℕ} {s : System A} → Reach A n s → holders s + s.posts ≤ 1
  one_drain r = let v = Reach-Inv r in ground arith

  -- None of the `unreachable!` branches is reached: a producer's request and an acquisition never
  -- find the signal closed, the request of an active drain is always coalesced, and a drain that
  -- finishes is told that it is idle or pending.
  pub unreachable_branches :
      {n : ℕ} {s : System A}
      → Reach A n s
      → ((Drain.request (signal A s)).1 ≢ returned DrainRequest.closed)
        × ((Drain.acquire (signal A s)).1 ≢ returned DrainAcquire.closed)
        × ((s.retaining ≡ 0) ⊎ ((Drain.request (signal A s)).1 ≡ returned DrainRequest.coalesced))
        × ((s.leaving ≡ 0) ⊎ ((Drain.finish_drain (signal A s)).1 ≢ returned DrainAfter.closed))
  unfolding Drain.request Drain.acquire Drain.finish_drain
  unreachable_branches r = let v = Reach-Inv r in ground arith
