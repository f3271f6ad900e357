-- ===== src/Tests/Mailboxes.antt =====
-- runtime/src/mailbox.rs at a mailbox of two places, run by one thread and by several.
use rust_jsi.Base.{ℕ, ◌+◌, ◌≡◌, ◌<◌, ◌⊎◌, refl, List, [], ◌∷◌, arith}
use rust_jsi.Runtime.Queue.{ArrayQueue, list_queue}
use rust_jsi.Runtime.Drain.Raw
use rust_jsi.Runtime.Mailbox.{BoundedMailbox}
use rust_jsi.Runtime.Mailbox.Laws.{IsValid, IsDraining}
use rust_jsi.Runtime.Mailbox.Concurrent.{
  System, Action, Reach, start, later, step, init, items, signal,
}
use rust_jsi.Runtime.Mailbox.Concurrent.Safety.{payload_is_announced}

abbrev numbers : ArrayQueue ℕ
numbers = list_queue ℕ

abbrev mailbox_at : ℕ → List ℕ → BoundedMailbox numbers
mailbox_at signal stored = record { queue = record { bound = 2; stored = stored }; signal = signal }

-- One payload is stored, and its drain is pending.
abbrev waiting : BoundedMailbox numbers
waiting = mailbox_at 1 (7 ∷ [])

waiting-IsValid : IsValid numbers waiting
waiting-IsValid = ground arith

-- A consumer holds the drain, with two payloads left.
abbrev held : BoundedMailbox numbers
held = mailbox_at 2 (7 ∷ 8 ∷ [])

held-IsValid : IsValid numbers held
held-IsValid = ground arith

held-IsDraining : IsDraining numbers held
held-IsDraining = ground arith

-- A producer stores a payload and requests its drain; a consumer acquires it and leaves early.
abbrev trace : List (Action ℕ)
trace = Action.push 7 ∷ Action.request ∷ Action.acquire ∷ Action.check ∷ Action.retain ∷ []

abbrev steps : List (Action ℕ) → System numbers → System numbers
steps [] s = s
steps (a ∷ l) s = steps l (step numbers a s)

abbrev abandoned : System numbers
abandoned = steps trace (init numbers 2)

abandoned-Reach : Reach numbers 2 abandoned
unfolding step
abandoned-Reach =
    later Action.retain
      (later Action.check
        (later Action.acquire (later Action.request (later (Action.push 7) start tt) (omega arith))
          tt)
        (omega arith))
      (omega arith)

abandoned_state :
    (abandoned.publishing ≡ 0) × (items numbers abandoned ≡ 7 ∷ []) × (abandoned.leaving ≡ 1)
unfolding step
abandoned_state = (refl, refl, refl)

payload_is_announced_example :
    ((signal numbers abandoned ≡ Raw.pending) × (abandoned.posts ≡ 1))
    ⊎ (0 < abandoned.working + abandoned.retaining)
    ⊎ ((0 < abandoned.leaving) × (signal numbers abandoned ≡ Raw.draining_pending))
payload_is_announced_example =
    payload_is_announced numbers abandoned-Reach abandoned_state.0
      (rw (abandoned_state.1) (λ e. cc))
