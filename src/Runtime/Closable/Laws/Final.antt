-- ===== src/Runtime/Closable/Laws/Final.antt =====
-- runtime/src/closable_mailbox.rs: what each method does to a sealed producers' gate and to a
-- closed mailbox. Nothing is assumed of the other words.
use rust_jsi.Base.{ℕ, ◌≡◌, ◌≢◌, ◌⊎◌, inl, inr, refl, Result, ok, err, returned, arith}
use rust_jsi.Runtime.Atomic.{call}
use rust_jsi.Runtime.Queue.{ArrayQueue}
use rust_jsi.Runtime.Drain.{DrainAfter}
use rust_jsi.Runtime.Ingress
use rust_jsi.Runtime.Ingress.{IngressState, IngressReserveError}
use rust_jsi.Runtime.Closable.Raw
use rust_jsi.Runtime.Closable.State.{ClosableMailbox}
use rust_jsi.Runtime.Closable.State
use rust_jsi.Runtime.Closable
use rust_jsi.Runtime.Closable.{Hosted}
use rust_jsi.Runtime.Closable.Terminal
use rust_jsi.Runtime.Closable.Terminal.{claim_program, complete_program, abandon_program}

abbrev pub IsSealed : ℕ → Type 0
IsSealed m = Ingress.state_from_raw m ≡ returned IngressState.sealed

reserve-sealed :
    (m : ℕ)
    → IsSealed m
    → Ingress.reserve m ≡ (m, returned (err (IngressReserveError.not_open IngressState.sealed)))
unfolding Ingress.reserve
reserve-sealed m s = ground arith

begin_close-sealed : (m : ℕ) → IsSealed m → (Ingress.begin_close m).0 ≡ m
unfolding Ingress.begin_close
begin_close-sealed m s = ground arith

try_seal-sealed :
    (m : ℕ)
    → (IsSealed m × (Ingress.try_seal m ≡ (m, returned (ok IngressState.sealed))))
      ⊎ (Ingress.state_from_raw m ≢ returned IngressState.sealed)
unfolding Ingress.try_seal
try_seal-sealed m = ground arith

try_seal-seals :
    (m : ℕ)
    → ((Ingress.try_seal m).1 ≢ returned (ok IngressState.sealed)) ⊎ IsSealed (Ingress.try_seal m).0
unfolding Ingress.try_seal
try_seal-seals m = ground arith

claim_closed : (call claim_program Raw.terminal_closed).0 ≡ Raw.terminal_closed
unfolding call claim_program
claim_closed = refl

complete_closed : (call complete_program Raw.terminal_closed).0 ≡ Raw.terminal_closed
unfolding call complete_program
complete_closed = refl

abandon_closed : (call abandon_program Raw.terminal_closed).0 ≡ Raw.terminal_closed
unfolding call abandon_program
abandon_closed = refl

complete_normal : (call complete_program Raw.normal).0 ≡ Raw.normal
unfolding call complete_program
complete_normal = refl

abandon_normal : (call abandon_program Raw.normal).0 ≡ Raw.normal
unfolding call abandon_program
abandon_normal = refl

-- Closed for good: a sealed producers' gate, and a terminal drain that has been completed.
abbrev pub IsFinal : {T : Type 0} → (A : ArrayQueue T) → ClosableMailbox A → Type 0
IsFinal A b = IsSealed b.producer_gate × (b.terminal_state ≡ Raw.terminal_closed)

-- Normal, or past the sealing of the producers' gate.
abbrev pub IsSound : {T : Type 0} → (A : ArrayQueue T) → ClosableMailbox A → Type 0
IsSound A b = (b.terminal_state ≡ Raw.normal) ⊎ IsSealed b.producer_gate

module _ {T : Type 0} (A : ArrayQueue T) where
  -- A method keeps what is final, and what is sound.
  pub record Keeps (b c : ClosableMailbox A) : Type 0 where
    pub final :
        ((IsSealed b.producer_gate → ⊥) ⊎ (b.terminal_state ≢ Raw.terminal_closed)) ⊎ IsFinal A c
    pub sound : ((b.terminal_state ≢ Raw.normal) × (IsSealed b.producer_gate → ⊥)) ⊎ IsSound A c

  pub enqueue-Keeps : (b : ClosableMailbox A) (x : T) → Keeps b (Closable.enqueue A x b).0
  unfolding Closable.enqueue Closable.publish
  enqueue-Keeps b x = ground (arith, reserve-sealed b.producer_gate)

  pub begin_close-Keeps : (b : ClosableMailbox A) → Keeps b (Closable.begin_close A b).0
  unfolding Closable.begin_close
  begin_close-Keeps b = ground (arith, begin_close-sealed b.producer_gate)

  pub acquire-Keeps : (b : ClosableMailbox A) → Keeps b (Closable.acquire A b).0
  unfolding Closable.acquire State.state
  acquire-Keeps b = ground arith

  pub drop_drain-Keeps : (b : ClosableMailbox A) → Keeps b (Closable.drop_drain A b).0
  unfolding Closable.drop_drain Closable.preserve_retained_payloads
  drop_drain-Keeps b = ground arith

  pub pop-Keeps : (b : ClosableMailbox A) → Keeps b (Closable.pop A b).0
  unfolding Closable.pop
  pop-Keeps b = ground arith

  pub pop_terminal-Keeps : (b : ClosableMailbox A) → Keeps b (Terminal.pop_terminal A b).0
  unfolding Terminal.pop_terminal
  pop_terminal-Keeps b = ground arith

  pub begin-Keeps : (b : ClosableMailbox A) → Keeps b (Terminal.try_begin_terminal_drain A b).0
  unfolding Terminal.try_begin_terminal_drain
  begin-Keeps b =
      ground (arith, try_seal-sealed b.producer_gate, try_seal-seals b.producer_gate, claim_closed)

  pub finish-Keeps : (b : ClosableMailbox A) → Keeps b (Terminal.finish_terminal A b).0
  unfolding Terminal.finish_terminal Terminal.drop_terminal
  finish-Keeps b = ground (arith, complete_closed, abandon_closed, complete_normal, abandon_normal)

  pub drop_terminal-Keeps : (b : ClosableMailbox A) → Keeps b (Terminal.drop_terminal A b).0
  unfolding Terminal.drop_terminal
  drop_terminal-Keeps b = ground (arith, abandon_closed, abandon_normal)

  module _ {W : Type 0} where
    pub finish_with-Keeps :
        {B : Type 0} (operation : DrainAfter → W → W × B) (h : Hosted A W)
        → Keeps h.mailbox (Closable.finish_with A operation h).0.mailbox
    unfolding Closable.finish_with Closable.preserve_retained_payloads
    finish_with-Keeps operation h = ground arith

    module _ {E : Type 0} (post : W → W × Result (Unit {0}) E) where
      pub post_pending-Keeps :
          (h : Hosted A W) → Keeps h.mailbox (Closable.post_pending_with A post h).0.mailbox
      unfolding Closable.post_pending_with
      post_pending-Keeps h = ground arith

      pub enqueue_and_post-Keeps :
          (h : Hosted A W) (x : T)
          → Keeps h.mailbox (Closable.enqueue_and_post A post x h).0.mailbox
      unfolding Closable.enqueue_and_post Closable.publish
      enqueue_and_post-Keeps h x = ground (arith, reserve-sealed h.mailbox.producer_gate)

  -- A closed mailbox refuses an enqueue, with the payload, and is as it was.
  pub enqueue-final :
      (b : ClosableMailbox A) (x : T)
      → IsFinal A b
      → Closable.enqueue A x b ≡ (b, returned (err (State.ClosableMailboxEnqueueError.closed x)))
  unfolding Closable.enqueue
  enqueue-final b x f = ground (arith, reserve-sealed b.producer_gate)

  -- A mailbox that reports its close has sealed its producers' gate, if it is sound.
  pub state-closed :
      (b : ClosableMailbox A)
      → IsSound A b
      → (((State.state A b).1 ≡ returned State.ClosableMailboxState.closed) × IsFinal A b)
        ⊎ ((State.state A b).1 ≢ returned State.ClosableMailboxState.closed)
  unfolding State.state
  state-closed b s = ground arith

  load-state : (m : ℕ) → (Ingress.state m).0 ≡ m
  unfolding Ingress.state
  load-state m = refl

  pub state-reads : (b : ClosableMailbox A) → (State.state A b).0 ≡ b
  unfolding State.state
  state-reads b = ground (arith, load-state b.producer_gate)

  pub IsFinal-Keeps : (b c : ClosableMailbox A) → Keeps b c → IsFinal A b → IsFinal A c
  IsFinal-Keeps b c k f = elim k.final [
    | inl (inl open_still) ↦ absurd (open_still f.0)
    | inl (inr other) ↦ absurd (other f.1)
    | inr g ↦ g
  ]

  pub IsSound-Keeps : (b c : ClosableMailbox A) → Keeps b c → IsSound A b → IsSound A c
  IsSound-Keeps b c k s = elim k.sound [
    | inr t ↦ t
    | inl (past, open_still) ↦ elim s [
      | inl normal ↦ absurd (past normal)
      | inr sealed ↦ absurd (open_still sealed)
    ]
  ]
