-- ===== src/Runtime/Closable/Concurrent.antt =====
-- runtime/src/closable_mailbox.rs under any number of threads. A step is one access of the queue, of
-- a gate, of the signal or of the terminal word. Each method of those is taken as a single step, and
-- the gates are read as their specification.
pub mod Invariant
pub mod Safety
use rust_jsi.Base.{
  ℕ, zero, suc, ◌+◌, ◌-◌, ◌<◌, ◌≡◌, List, [], ◌∷◌, ◌++◌, Option, none, some, Outcome, returned,
  panicked, if◌then◌else◌, ◌==◌, Result, ok, err,
}
use rust_jsi.Runtime.Atomic.{call}
use rust_jsi.Runtime.Queue.{ArrayQueue}
use rust_jsi.Runtime.Drain
use rust_jsi.Runtime.Drain.{DrainAcquire}
use rust_jsi.Runtime.Ingress.{IngressState}
use rust_jsi.Runtime.Ingress.Spec
use rust_jsi.Runtime.Ingress.Spec.{Gate}
use rust_jsi.Runtime.Closable.Raw
use rust_jsi.Runtime.Closable.Terminal.{claim_program, complete_program, abandon_program}

-- The mailbox, how many threads stand at each point of its methods, and which payloads the queue
-- has taken in and given out, in order.
pub record System {T : Type 0} (A : ArrayQueue T) : Type 0 where
  pub queue : A.Q
  pub signal : ℕ
  pub producers : Gate
  pub normals : Gate
  pub terminal : ℕ
  -- in `enqueue` or `enqueue_and_post`
  pub admitted : ℕ  -- before the push
  pub pushed : ℕ  -- before the request
  pub publishing : ℕ  -- posting, or about to settle
  -- with a normal admission
  pub entering : ℕ  -- before the signal's `acquire` or, in `post_pending_with`, before its `state`
  pub working : ℕ  -- holding a `ClosableMailboxDrain`
  pub retaining : ℕ  -- in `preserve_retained_payloads`, which has found a payload
  pub finishing : ℕ  -- before `finish_drain`
  pub leaving : ℕ  -- posting, or about to settle
  -- in `try_begin_terminal_drain`
  pub sealed_producers : ℕ
  pub closed_normals : ℕ
  pub sealed_normals : ℕ
  pub closed_signal : ℕ
  -- with a `TerminalMailboxDrain`
  pub owning : ℕ
  pub completing : ℕ  -- in `finish`, which has found no payload
  pub abandoning : ℕ  -- about to drop it unfinished
  pub accepted : List T
  pub handed : List T

pub data Action (T : Type 0) : Type 0 where
  admit request settle begin_close : Action T
  push : T → Action T
  enter acquire peek pop check retain finish leave : Action T
  seal_producers close_normals seal_normals close_signal claim : Action T
  pop_terminal measure complete forsake abandon : Action T

module _ {T : Type 0} (A : ArrayQueue T) where
  -- A thread stands where the action is taken.
  abbrev pub IsEnabled : Action T → System A → Type 0
  IsEnabled (push x) s = 0 < s.admitted
  IsEnabled request s = 0 < s.pushed
  IsEnabled settle s = 0 < s.publishing
  IsEnabled acquire s = 0 < s.entering
  IsEnabled peek s = 0 < s.entering
  IsEnabled pop s = 0 < s.working
  IsEnabled check s = 0 < s.working
  IsEnabled retain s = 0 < s.retaining
  IsEnabled finish s = 0 < s.finishing
  IsEnabled leave s = 0 < s.leaving
  IsEnabled close_normals s = 0 < s.sealed_producers
  IsEnabled seal_normals s = 0 < s.closed_normals
  IsEnabled close_signal s = 0 < s.sealed_normals
  IsEnabled claim s = 0 < s.closed_signal
  IsEnabled pop_terminal s = 0 < s.owning
  IsEnabled measure s = 0 < s.owning
  IsEnabled complete s = 0 < s.completing
  IsEnabled forsake s = 0 < s.owning
  IsEnabled abandon s = 0 < s.abandoning
  IsEnabled _ s = Unit

  abbrev pub granted : {B E : Type 0} → Result B E → ℕ
  granted (ok _) = 1
  granted (err _) = 0

  abbrev pub obtained : {B E : Type 0} → Outcome (Result B E) → ℕ
  obtained (returned r) = granted r
  obtained panicked = 0

  abbrev pub took : Outcome DrainAcquire → ℕ
  took (returned DrainAcquire.acquired) = 1
  took _ = 0

  abbrev pub listed : Option T → List T
  listed none = []
  listed (some x) = x ∷ []

  -- The payload that goes in, if the push succeeds.
  abbrev pub stored : T → Result (Unit {0}) T → List T
  stored x (ok _) = x ∷ []
  stored x (err _) = []

  unfoldable pub step : Action T → System A → System A
  unfolding Drain.request Drain.acquire Drain.finish_drain Drain.close call claim_program
      complete_program abandon_program
  step admit s =
      let (g, r) = Spec.reserve s.producers in
      record s { producers = g; admitted = s.admitted + granted r }
  step (push x) s =
      let (q, r) = A.push s.queue x in
      record s {
        queue = q;
        admitted = s.admitted - 1;
        pushed = s.pushed + granted r;
        publishing = s.publishing + (1 - granted r);
        accepted = s.accepted ++ stored x r;
      }
  step request s = record s {
    signal = (Drain.request s.signal).0;
    pushed = s.pushed - 1;
    publishing = s.publishing + 1;
  }
  step settle s = record s { producers = Spec.settle s.producers; publishing = s.publishing - 1 }
  step begin_close s = record s { producers = (Spec.begin_close s.producers).0 }
  step enter s =
      let (g, r) = Spec.reserve s.normals in
      record s { normals = g; entering = s.entering + granted r }
  step acquire s =
      let (m, o) = Drain.acquire s.signal in
      record s {
        signal = m;
        entering = s.entering - 1;
        working = s.working + took o;
        leaving = s.leaving + (1 - took o);
      }
  step peek s = record s { entering = s.entering - 1; leaving = s.leaving + 1 }
  step pop s = let (q, o) = A.pop s.queue in record s { queue = q; handed = s.handed ++ listed o }
  step check s =
      if A.is_empty s.queue
      then record s { working = s.working - 1; finishing = s.finishing + 1 }
      else record s { working = s.working - 1; retaining = s.retaining + 1 }
  step retain s = record s {
    signal = (Drain.request s.signal).0;
    retaining = s.retaining - 1;
    finishing = s.finishing + 1;
  }
  step finish s = record s {
    signal = (Drain.finish_drain s.signal).0;
    finishing = s.finishing - 1;
    leaving = s.leaving + 1;
  }
  step leave s = record s { normals = Spec.settle s.normals; leaving = s.leaving - 1 }
  step seal_producers s =
      let (g, r) = Spec.try_seal s.producers in
      record s { producers = g; sealed_producers = s.sealed_producers + granted r }
  step close_normals s = record s {
    normals = (Spec.begin_close s.normals).0;
    sealed_producers = s.sealed_producers - 1;
    closed_normals = s.closed_normals + 1;
  }
  step seal_normals s =
      let (g, r) = Spec.try_seal s.normals in
      record s {
        normals = g;
        closed_normals = s.closed_normals - 1;
        sealed_normals = s.sealed_normals + granted r;
      }
  step close_signal s = record s {
    signal = (Drain.close s.signal).0;
    sealed_normals = s.sealed_normals - 1;
    closed_signal = s.closed_signal + 1;
  }
  step claim s =
      let (m, o) = call claim_program s.terminal in
      record s { terminal = m; closed_signal = s.closed_signal - 1; owning = s.owning + obtained o }
  step pop_terminal s =
      let (q, o) = A.pop s.queue in record s { queue = q; handed = s.handed ++ listed o }
  step measure s =
      if A.len s.queue == 0
      then record s { owning = s.owning - 1; completing = s.completing + 1 }
      else record s { owning = s.owning - 1; abandoning = s.abandoning + 1 }
  step complete s =
      let (m, o) = call complete_program s.terminal in
      record s {
        terminal = m;
        completing = s.completing - 1;
        abandoning = s.abandoning + (1 - obtained o);
      }
  step forsake s = record s { owning = s.owning - 1; abandoning = s.abandoning + 1 }
  step abandon s = record s {
    terminal = (call abandon_program s.terminal).0;
    abandoning = s.abandoning - 1;
  }

  abbrev pub init : ℕ → System A
  init n = record {
    queue = A.new n;
    signal = Drain.new;
    producers = record { phase = IngressState.open_gate; in_flight = 0 };
    normals = record { phase = IngressState.open_gate; in_flight = 0 };
    terminal = Raw.normal;
    admitted = 0;
    pushed = 0;
    publishing = 0;
    entering = 0;
    working = 0;
    retaining = 0;
    finishing = 0;
    leaving = 0;
    sealed_producers = 0;
    closed_normals = 0;
    sealed_normals = 0;
    closed_signal = 0;
    owning = 0;
    completing = 0;
    abandoning = 0;
    accepted = [];
    handed = [];
  }

  pub data Reach (n : ℕ) : System A → Type 0 where
    start : Reach n (init n)
    later : {s : System A} (a : Action T) → Reach n s → IsEnabled a s → Reach n (step a s)
