-- ===== src/Runtime/Closable/State.antt =====
-- runtime/src/closable_mailbox.rs: the types, the fields' calls, and the observers.
use rust_jsi.Base.{
  ℕ, Bool, true, false, if◌then◌else◌, ◌==◌, returned, panicked, Method, ◌>>=◌, give,
}
use rust_jsi.Runtime.Queue.{ArrayQueue}
use rust_jsi.Runtime.Drain
use rust_jsi.Runtime.Drain.{DrainState}
use rust_jsi.Runtime.Ingress
use rust_jsi.Runtime.Ingress.{IngressState}
use rust_jsi.Runtime.Closable.Raw

pub data ClosableMailboxState : Type 0 where
  open_mailbox closing terminal_pending terminal_draining closed : ClosableMailboxState

pub data ClosableMailboxEnqueueError (T : Type 0) : Type 0 where
  full : T → ClosableMailboxEnqueueError T
  closed : T → ClosableMailboxEnqueueError T

pub data ClosableMailboxPostError (T E : Type 0) : Type 0 where
  enqueue_failed : ClosableMailboxEnqueueError T → ClosableMailboxPostError T E
  post_failed : E → ClosableMailboxPostError T E

-- The `ClosableMailboxDrain` of `acquired` is the right to `pop`, and to finish or drop it once.
pub data ClosableMailboxAcquire : Type 0 where
  idle acquired busy : ClosableMailboxAcquire
  unavailable : ClosableMailboxState → ClosableMailboxAcquire

pub data TerminalAcquireError : Type 0 where
  producer_close_not_started : TerminalAcquireError
  producer_reservations_remain : ℕ → TerminalAcquireError
  normal_drain_reservations_remain : ℕ → TerminalAcquireError
  terminal_drain_active closed : TerminalAcquireError

pub data TerminalDrainFinishError : Type 0 where
  payloads_remain : ℕ → TerminalDrainFinishError
  stale : TerminalDrainFinishError

pub record ClosableMailbox {T : Type 0} (A : ArrayQueue T) : Type 0 where
  pub queue : A.Q
  pub signal : ℕ
  pub producer_gate : ℕ
  pub normal_drain_gate : ℕ
  pub terminal_state : ℕ

module _ {T : Type 0} (A : ArrayQueue T) where
  abbrev pub on_queue : {B : Type 0} → (A.Q → A.Q × B) → Method (ClosableMailbox A) B
  on_queue f b = let (q, r) = f b.queue in (record b { queue = q }, returned r)

  abbrev pub on_signal : {B : Type 0} → Method ℕ B → Method (ClosableMailbox A) B
  on_signal f b = let (m, o) = f b.signal in (record b { signal = m }, o)

  abbrev pub on_producer_gate : {B : Type 0} → Method ℕ B → Method (ClosableMailbox A) B
  on_producer_gate f b = let (m, o) = f b.producer_gate in (record b { producer_gate = m }, o)

  abbrev pub on_normal_drain_gate : {B : Type 0} → Method ℕ B → Method (ClosableMailbox A) B
  on_normal_drain_gate f b =
      let (m, o) = f b.normal_drain_gate in (record b { normal_drain_gate = m }, o)

  abbrev pub on_terminal_state : {B : Type 0} → Method ℕ B → Method (ClosableMailbox A) B
  on_terminal_state f b = let (m, o) = f b.terminal_state in (record b { terminal_state = m }, o)

  abbrev pub new : ℕ → ClosableMailbox A
  new capacity = record {
    queue = A.new capacity;
    signal = Drain.new;
    producer_gate = Ingress.new;
    normal_drain_gate = Ingress.new;
    terminal_state = Raw.normal;
  }

  abbrev pub len : ClosableMailbox A → ℕ
  len b = A.len b.queue

  abbrev pub is_pending : DrainState → Bool
  is_pending DrainState.pending = true
  is_pending _ = false

  unfoldable pub is_drain_pending : Method (ClosableMailbox A) Bool
  unfolding Drain.state
  is_drain_pending = do s ← on_signal Drain.state; give (is_pending s)

  abbrev by_producers : IngressState → ClosableMailboxState
  by_producers IngressState.open_gate = ClosableMailboxState.open_mailbox
  by_producers IngressState.closing = ClosableMailboxState.closing
  by_producers IngressState.sealed = ClosableMailboxState.closing

  unfoldable pub state : Method (ClosableMailbox A) ClosableMailboxState
  unfolding Ingress.state
  state b =
      if b.terminal_state == Raw.terminal_pending
      then (b, returned ClosableMailboxState.terminal_pending)
      else if b.terminal_state == Raw.terminal_active
      then (b, returned ClosableMailboxState.terminal_draining)
      else if b.terminal_state == Raw.terminal_closed
      then (b, returned ClosableMailboxState.closed)
      else if b.terminal_state == Raw.normal
      then (on_producer_gate Ingress.state >>= λ s. give (by_producers s)) b
      else (b, panicked)
