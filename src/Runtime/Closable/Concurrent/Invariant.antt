-- ===== src/Runtime/Closable/Concurrent/Invariant.antt =====
-- runtime/src/closable_mailbox.rs under threads: the invariant of its steps.
use rust_jsi.Base.{length-zero}
use rust_jsi.Base.{sym, inl, inr}
use rust_jsi.Base.{
  ℕ, ◌+◌, ◌<◌, ◌≤◌, ◌≡◌, ◌≢◌, ◌⊎◌, List, [], ◌∷◌, ◌++◌, arith, append_assoc, append-nil,
}
use rust_jsi.Runtime.Queue.{ArrayQueue, push-cases, pop-cases}
use rust_jsi.Runtime.Drain.Raw as Signal
use rust_jsi.Runtime.Ingress.{IngressState}
use rust_jsi.Runtime.Ingress.Spec.{IsValid}
use rust_jsi.Runtime.Closable.Raw
use rust_jsi.Runtime.Closable.Concurrent.{
  System, Action, push, listed, pop, check, pop_terminal, measure, IsEnabled, step, init, Reach,
  start, later,
}

module _ {T : Type 0} (A : ArrayQueue T) where
  abbrev pub items : System A → List T
  items s = A.items s.queue

  -- The gates count the threads behind them.
  pub record Counts (s : System A) : Type 0 where
    pub producers_valid : IsValid s.producers
    pub normals_valid : IsValid s.normals
    pub producers_counted : s.producers.in_flight ≡ s.admitted + s.pushed + s.publishing
    pub normals_counted :
        s.normals.in_flight ≡ s.entering + s.working + s.retaining + s.finishing + s.leaving

  -- Terminal close goes through its stages in order.
  pub record Stages (s : System A) : Type 0 where
    pub first : 0 < s.sealed_producers + s.closed_normals → s.producers.phase ≡ IngressState.sealed
    pub second : s.normals.phase ≢ IngressState.open_gate → s.producers.phase ≡ IngressState.sealed
    pub third : 0 < s.closed_normals → s.normals.phase ≢ IngressState.open_gate
    pub fourth : 0 < s.sealed_normals + s.closed_signal → s.normals.phase ≡ IngressState.sealed
    pub fifth : s.signal ≡ Signal.closed → s.normals.phase ≡ IngressState.sealed
    pub sixth : 0 < s.closed_signal → s.signal ≡ Signal.closed
    pub last : s.terminal ≢ Raw.normal → s.signal ≡ Signal.closed

  abbrev pub holders : System A → ℕ
  holders s = s.working + s.retaining + s.finishing

  abbrev pub owners : System A → ℕ
  owners s = s.owning + s.completing + s.abandoning

  -- The signal and the terminal word tell who owns the payloads.
  pub record Owners (s : System A) : Type 0 where
    pub signal_bounded : s.signal ≤ Signal.closed
    pub terminal_bounded : s.terminal ≤ Raw.terminal_closed
    pub held :
        (((s.signal ≡ Signal.draining) ⊎ (s.signal ≡ Signal.draining_pending)) × (holders s ≡ 1))
        ⊎ ((s.signal ≢ Signal.draining) × (s.signal ≢ Signal.draining_pending) × (holders s ≡ 0))
    pub owned :
        ((s.terminal ≡ Raw.terminal_active) × (owners s ≡ 1))
        ⊎ ((s.terminal ≢ Raw.terminal_active) × (owners s ≡ 0))

  -- When no payload is stored.
  pub record Payloads (s : System A) : Type 0 where
    pub heard : s.signal ≡ Signal.idle → s.pushed ≡ 0 → items s ≡ []
    pub swept : 0 < s.finishing → s.signal ≡ Signal.draining → s.pushed ≡ 0 → items s ≡ []
    pub measured : 0 < s.completing → items s ≡ []
    pub finished : s.terminal ≡ Raw.terminal_closed → items s ≡ []

  pub record Inv (s : System A) : Type 0 where
    pub counts : Counts s
    pub stages : Stages s
    pub owners_known : Owners s
    pub payloads : Payloads s
    pub in_order : s.accepted ≡ s.handed ++ items s

  pub init-Inv : (n : ℕ) → Inv (init A n)
  init-Inv n = ground (arith, A.items-new n)

  step-Counts : (a : Action T) (s : System A) → IsEnabled A a s → Inv s → Counts (step A a s)
  unfolding step
  step-Counts (push x) s e v = ground (arith, push-cases A s.queue x)
  step-Counts _ s e v = ground arith

  step-Stages : (a : Action T) (s : System A) → IsEnabled A a s → Inv s → Stages (step A a s)
  unfolding step
  step-Stages (push x) s e v = ground arith
  step-Stages _ s e v = ground arith

  step-Owners : (a : Action T) (s : System A) → IsEnabled A a s → Inv s → Owners (step A a s)
  unfolding step
  step-Owners (push x) s e v = ground arith
  step-Owners _ s e v = ground arith

  popped_in_order :
      (s : System A)
      → s.accepted ≡ s.handed ++ items s
      → s.accepted ≡ (s.handed ++ listed A (A.pop s.queue).1) ++ A.items (A.pop s.queue).0
  popped_in_order s v = elim (pop-cases A s.queue) [
    | inl (none_left, i, r) ↦ rw (r, i, v, none_left) (sym (append-nil _))
    | inr (x, i, r) ↦ rw (r, v, i) (sym (append_assoc s.handed (x ∷ []) _))
  ]

  step-in_order :
      (a : Action T) (s : System A)
      → s.accepted ≡ s.handed ++ items s
      → (step A a s).accepted ≡ (step A a s).handed ++ items (step A a s)
  unfolding step
  step-in_order (push x) s v = elim (push-cases A s.queue x) [
    | inl (_, r, i) ↦ rw (r, i, v) (append_assoc s.handed (items s) (x ∷ []))
    | inr (_, r, i) ↦ rw (r, i, v) (append-nil (s.handed ++ items s))
  ]
  step-in_order pop s v = popped_in_order s v
  step-in_order pop_terminal s v = popped_in_order s v
  step-in_order _ s v = ground arith

  step-Payloads : (a : Action T) (s : System A) → IsEnabled A a s → Inv s → Payloads (step A a s)
  unfolding step
  step-Payloads (push x) s e v = ground (arith, push-cases A s.queue x)
  step-Payloads pop s e v = ground (arith, pop-cases A s.queue)
  step-Payloads check s e v = ground (arith, A.is_empty-items s.queue)
  step-Payloads pop_terminal s e v = ground (arith, pop-cases A s.queue)
  step-Payloads measure s e v = ground (arith, A.len-items s.queue, length-zero (items s))
  step-Payloads _ s e v = ground arith

  pub step-Inv : (a : Action T) (s : System A) → IsEnabled A a s → Inv s → Inv (step A a s)
  step-Inv a s e v = record {
    counts = step-Counts a s e v;
    stages = step-Stages a s e v;
    owners_known = step-Owners a s e v;
    payloads = step-Payloads a s e v;
    in_order = step-in_order a s v.in_order;
  }

  pub Reach-Inv : {n : ℕ} {s : System A} → Reach A n s → Inv s
  Reach-Inv {n} start = init-Inv n
  Reach-Inv (later {s} a r e) = step-Inv a s e (Reach-Inv r)
