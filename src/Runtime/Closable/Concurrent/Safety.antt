-- ===== src/Runtime/Closable/Concurrent/Safety.antt =====
-- runtime/src/closable_mailbox.rs under threads: what holds in every reachable state.
use rust_jsi.Base.{
  ℕ, ◌+◌, ◌<◌, ◌≤◌, ◌≡◌, ◌≢◌, ◌⊎◌, [], ◌++◌, arith, append-nil, Outcome, returned, Result, ok, err,
  ap, sym, subst,
}
use rust_jsi.Runtime.Queue.{ArrayQueue}
use rust_jsi.Runtime.Drain
use rust_jsi.Runtime.Drain.{DrainRequest, DrainAfter}
use rust_jsi.Runtime.Drain.Raw as Signal
use rust_jsi.Runtime.Ingress.{IngressState, IngressSealError}
use rust_jsi.Runtime.Ingress
use rust_jsi.Runtime.Ingress.Laws.{try_seal_lem}
use rust_jsi.Runtime.Ingress.Spec
use rust_jsi.Runtime.Closable.Raw
use rust_jsi.Runtime.Closable.Concurrent.{System, Action, push, IsEnabled, step, Reach}
use rust_jsi.Runtime.Closable.Concurrent.Invariant.{items, holders, owners, Reach-Inv}

-- What a gate's `try_seal` answers.
abbrev pub SealsOnly : Outcome (Result IngressState IngressSealError) → Type 0
SealsOnly o =
    (o ≡ returned (ok IngressState.sealed))
    ⊎ (o ≡ returned (err IngressSealError.still_open))
    ⊎ ((n : ℕ) × (o ≡ returned (err (IngressSealError.reservations_remain n))))

spec-SealsOnly : (g : Spec.Gate) → SealsOnly (returned (Spec.try_seal g).1)
spec-SealsOnly g = ground arith

try_seal-SealsOnly : (g : Spec.Gate) → Spec.IsValid g → SealsOnly (Ingress.try_seal (Spec.raw g)).1
try_seal-SealsOnly g v =
    subst SealsOnly
      (sym
        (ap (λ (r : ℕ × Outcome (Result IngressState IngressSealError)). r.1) (try_seal_lem g v)))
      (spec-SealsOnly g)

module _ {T : Type 0} (A : ArrayQueue T) where
  -- The threads that are within a producer's or a normal drain's admission.
  abbrev pub inside : System A → ℕ
  inside s =
      s.admitted + s.pushed + s.publishing + s.entering + s.working + s.retaining + s.finishing
      + s.leaving

  -- In every reachable state, every payload that the queue accepted was handed out once, in order, or is still stored, and
  -- once terminal close has completed they were all handed out.
  pub payloads_conserved :
      {n : ℕ} {s : System A}
      → Reach A n s
      → (s.accepted ≡ s.handed ++ items A s)
        × ((s.terminal ≢ Raw.terminal_closed) ⊎ (s.accepted ≡ s.handed))
  payloads_conserved {s} r =
      let v = Reach-Inv A r in
      (v.in_order, ground (arith, v.payloads.finished, append-nil s.handed))

  -- In every reachable state: once a terminal owner has been active, no producer and no normal drain
  -- is within an admission, so none can post, push or pop; there is one terminal owner at most, and
  -- one holder of the normal drain at most.
  pub terminal_excludes :
      {n : ℕ} {s : System A}
      → Reach A n s
      → ((s.terminal ≡ Raw.normal) ⊎ (inside s ≡ 0)) × (owners A s ≤ 1) × (holders A s ≤ 1)
  terminal_excludes r = let v = Reach-Inv A r in ground arith

  -- In a reachable state in which terminal close has completed, no enabled step changes the terminal
  -- word, or the payloads taken in or handed out.
  pub closed_is_final :
      {n : ℕ} {s : System A} (a : Action T)
      → Reach A n s
      → s.terminal ≡ Raw.terminal_closed
      → IsEnabled A a s
      → ((step A a s).terminal ≡ Raw.terminal_closed)
        × ((step A a s).accepted ≡ s.accepted)
        × ((step A a s).handed ≡ s.handed)
  unfolding step
  closed_is_final (push x) r c e = let v = Reach-Inv A r in ground arith
  closed_is_final _ r c e = let v = Reach-Inv A r in ground arith

  -- Until the signal closes no payload is stranded: whenever one is stored and no producer is
  -- between its push and its request, either the signal is pending, or a consumer that has not yet
  -- looked for payloads holds the drain, or the consumer about to finish it will find a pending
  -- successor.
  pub closable_payload_is_announced :
      {n : ℕ} {s : System A}
      → Reach A n s
      → s.signal ≢ Signal.closed
      → s.pushed ≡ 0
      → items A s ≢ []
      → (s.signal ≡ Signal.pending)
        ⊎ (0 < s.working + s.retaining)
        ⊎ ((0 < s.finishing) × (s.signal ≡ Signal.draining_pending))
  closable_payload_is_announced r live quiet some_left = let v = Reach-Inv A r in ground arith

  -- None of the `unreachable!` branches of closable_mailbox.rs is reached: an admitted producer's
  -- request does not find the signal closed; the request of an active drain is coalesced; a terminal
  -- owner that has begun to close the normal gate does not find it open; sealing either gate's word
  -- gives sealed or one of the two errors; and the terminal word is one of its four values. Also, the
  -- finish of an active drain does not find the signal closed.
  pub closable_unreachable_branches :
      {n : ℕ} {s : System A}
      → Reach A n s
      → ((s.pushed ≡ 0) ⊎ ((Drain.request s.signal).1 ≢ returned DrainRequest.closed))
        × ((s.retaining ≡ 0) ⊎ ((Drain.request s.signal).1 ≡ returned DrainRequest.coalesced))
        × ((s.finishing ≡ 0) ⊎ ((Drain.finish_drain s.signal).1 ≢ returned DrainAfter.closed))
        × ((s.closed_normals ≡ 0) ⊎ ((Spec.try_seal s.normals).1 ≢ err IngressSealError.still_open))
        × SealsOnly (Ingress.try_seal (Spec.raw s.producers)).1
        × SealsOnly (Ingress.try_seal (Spec.raw s.normals)).1
        × ((s.terminal ≡ Raw.normal)
            ⊎ (s.terminal ≡ Raw.terminal_pending)
            ⊎ (s.terminal ≡ Raw.terminal_active)
            ⊎ (s.terminal ≡ Raw.terminal_closed))
  unfolding Drain.request Drain.finish_drain
  closable_unreachable_branches {s = s} r =
      let v = Reach-Inv A r in
      (
        ground arith,
        ground arith,
        ground arith,
        ground arith,
        try_seal-SealsOnly s.producers v.counts.producers_valid,
        try_seal-SealsOnly s.normals v.counts.normals_valid,
        ground arith,
      )
