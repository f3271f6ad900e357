-- ===== src/Testkit/WorkQueue/Laws.antt =====
-- testkit/src/work_queue.rs: any sequence of calls, with any sequence numbers.
use rust_jsi.Base.{
  ℕ, ◌+◌, ◌≤◌, ◌≡◌, ◌≢◌, ◌⊎◌, refl, Bool, true, false, List, [], ◌∷◌, length, length-append, null,
  Option, none, some, arith, inl, inr,
}
use rust_jsi.Host.Identity.{u64_max}
use rust_jsi.Runtime.Queue.{tail}
use rust_jsi.Testkit.WorkQueue.{
  WorkQueueModel, WorkQueueState, new, reserve, publish, abandon, begin_close, begin_drain, pop,
  finish_drain, begin_terminal_drain, pop_terminal, finish_terminal_drain, release_terminal_drain,
}

-- A call, with whatever reservation or lease the caller has at hand.
pub data Action (T : Type 0) : Type 0 where
  reserves begin_closes drains terminals : Action T
  publishes : ℕ → T → Action T
  abandons pops finishes pops_terminal finishes_terminal releases : ℕ → Action T

-- The first number that has not been issued; past the end when none is left.
abbrev pub fresh : Option ℕ → ℕ
fresh none = u64_max + 1
fresh (some n) = n

abbrev pub is_terminal : WorkQueueState → Bool
is_terminal WorkQueueState.open_queue = false
is_terminal WorkQueueState.closing = false
is_terminal _ = true

null-nil : {A : Type 0} (l : List A) → ((l ≡ []) × (null l ≡ true)) ⊎ (null l ≡ false)
null-nil [] = inl (refl, refl)
null-nil (x ∷ l) = inr refl

module _ {T : Type 0} where
  abbrev pub act : Action T → WorkQueueModel T → WorkQueueModel T
  act reserves m = (reserve m).0
  act begin_closes m = begin_close m
  act drains m = (begin_drain m).0
  act terminals m = (begin_terminal_drain m).0
  act (publishes r x) m = (publish r x m).0
  act (abandons r) m = (abandon r m).0
  act (pops l) m = (pop l m).0
  act (finishes l) m = (finish_drain l m).0
  act (pops_terminal l) m = (pop_terminal l m).0
  act (finishes_terminal l) m = (finish_terminal_drain l m).0
  act (releases l) m = (release_terminal_drain l m).0

  abbrev pub run : List (Action T) → WorkQueueModel T → WorkQueueModel T
  run [] m = m
  run (a ∷ l) m = run l (act a m)

  pub record Inv (n : ℕ) (m : WorkQueueModel T) : Type 0 where
    pub sized : m.capacity ≡ n
    pub fits : length m.queue ≤ n
    pub owned : (is_terminal m.state ≡ false) ⊎ ((m.reservations ≡ []) × (m.active_drain ≡ none))
    pub leased : (m.state ≡ WorkQueueState.terminal_draining) ⊎ (m.active_terminal_drain ≡ none)
    pub emptied : (m.state ≢ WorkQueueState.closed) ⊎ (m.queue ≡ [])

  length-tail : (l : List T) → length (tail l) ≤ length l
  length-tail [] = omega arith
  length-tail (x ∷ l) = omega arith

  act-Inv : (a : Action T) (n : ℕ) (m : WorkQueueModel T) → Inv n m → Inv n (act a m)
  unfolding reserve publish abandon begin_close begin_drain pop finish_drain begin_terminal_drain
      pop_terminal finish_terminal_drain release_terminal_drain
  act-Inv reserves n m v = ground arith
  act-Inv begin_closes n m v = ground arith
  act-Inv drains n m v = ground arith
  act-Inv terminals n m v = ground (arith, null-nil m.reservations)
  act-Inv (publishes r x) n m v = ground (arith, length-append m.queue (x ∷ []))
  act-Inv (abandons r) n m v = ground arith
  act-Inv (pops l) n m v = ground (arith, length-tail m.queue)
  act-Inv (finishes l) n m v = ground arith
  act-Inv (pops_terminal l) n m v = ground (arith, length-tail m.queue)
  act-Inv (finishes_terminal l) n m v = ground (arith, null-nil m.queue)
  act-Inv (releases l) n m v = ground arith

  run-Inv : (l : List (Action T)) (n : ℕ) (m : WorkQueueModel T) → Inv n m → Inv n (run l m)
  run-Inv [] n m v = v
  run-Inv (a ∷ l) n m v = run-Inv l n (act a m) (act-Inv a n m v)

  -- After any calls, with any sequence numbers, the queue is within its capacity; once terminal
  -- ownership has begun no reservation and no normal drain is left; and a closed queue is empty.
  pub terminal_owns :
      (l : List (Action T)) (n : ℕ)
      → let m = run l (new n) in
        (length m.queue ≤ n)
        × ((is_terminal m.state ≡ false) ⊎ ((m.reservations ≡ []) × (m.active_drain ≡ none)))
        × ((m.state ≢ WorkQueueState.closed) ⊎ (m.queue ≡ []))
  terminal_owns l n = let v = run-Inv l n (new n) (ground arith) in (v.fits, v.owned, v.emptied)
