-- ===== src/Runtime/Closable/Terminal/Laws.antt =====
-- runtime/src/closable_mailbox.rs: the accesses of the terminal word.
use rust_jsi.Base.{ℕ, ◌≡◌, refl, List, Outcome, returned, Result, ok, err, arith, inl, ◌⊎◌, ◌≤◌}
use rust_jsi.Runtime.Atomic.{Program, halt, call, run, Event}
use rust_jsi.Runtime.Atomic.Linear.{IsLinear, Commits, run-Commits}
use rust_jsi.Runtime.Closable.Raw
use rust_jsi.Runtime.Closable.State.{TerminalAcquireError, TerminalDrainFinishError}
use rust_jsi.Runtime.Closable.Terminal.{claim_program, complete_program, abandon_program}

-- The methods that change the terminal word.
pub data Operation : Type 0 where
  claim complete abandon : Operation

abbrev pub Answer : Operation → Type 0
Answer Operation.claim = Result (Unit {0}) TerminalAcquireError
Answer Operation.complete = Result (Unit {0}) TerminalDrainFinishError
Answer Operation.abandon = Unit {0}

abbrev pub program : (op : Operation) → Program (Answer op)
program Operation.claim = claim_program
program Operation.complete = complete_program
program Operation.abandon = abandon_program

-- From `normal` or `terminal_pending` a claim makes one owner active; from the other states it is
-- refused, and the word stays.
pub claim-cases :
    (m : ℕ)
    → m ≤ Raw.terminal_closed
    → ((m ≤ Raw.terminal_pending)
        × (call claim_program m ≡ (Raw.terminal_active, returned (ok tt))))
      ⊎ ((m ≡ Raw.terminal_active)
          × (call claim_program m ≡ (m, returned (err TerminalAcquireError.terminal_drain_active))))
      ⊎ ((m ≡ Raw.terminal_closed)
          × (call claim_program m ≡ (m, returned (err TerminalAcquireError.closed))))
unfolding call claim_program
claim-cases m h = ground arith

program-IsLinear : (op : Operation) → IsLinear (call (program op)) (program op)
unfolding call claim_program complete_program abandon_program
program-IsLinear Operation.claim = λ m. ground arith
program-IsLinear Operation.complete =
    ((returned (ok tt), refl, refl), λ m h. inl (_, refl, ground arith))
program-IsLinear Operation.abandon = ((returned tt, refl, refl), λ m h. inl (_, refl, ground arith))

-- Under any schedule, with any changes by other threads and any spurious failures, a method on the
-- terminal word that ends has changed nothing but by its last access, which is the method's call at
-- the word as it stands there, with the same outcome.
pub terminal_linearizable :
    (op : Operation) (m : ℕ) (es : List Event) (o : Outcome (Answer op))
    → (run (program op) (program op) m es).0 ≡ halt o
    → Commits (call (program op)) o (run (program op) (program op) m es).2
terminal_linearizable op m es o ends =
    run-Commits (call (program op)) (program op) (program-IsLinear op) (program op)
      (program-IsLinear op) m es o ends
