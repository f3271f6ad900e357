-- ===== src/Runtime/Atomic.antt =====
-- Methods over one shared atomic word (`AtomicU8`, `AtomicUsize`), an access at a time.
-- A method body of runtime/src is written as a program of loads, compare-exchanges and
-- read-modify-writes; `restart` is the next round of its `loop`. The accesses of one word are taken
-- in one order: a single location has one modification order.
pub mod Linear
pub mod Alone
use rust_jsi.Base.{
  ℕ, Bool, true, false, not, ◌&&◌, if◌then◌else◌, ◌==◌, List, [], ◌∷◌, Outcome, returned, panicked,
  Method,
}

pub data Program (R : Type 0) : Type 0 where
  halt : Outcome R → Program R
  restart : Program R
  load : (ℕ → Program R) → Program R
  -- expected value, new value, what follows a success, what follows a failure
  compare_exchange_weak : ℕ → ℕ → Program R → Program R → Program R
  compare_exchange : ℕ → ℕ → Program R → Program R → Program R
  -- the word's update, and what follows with the previous value
  fetch_update : (ℕ → ℕ) → (ℕ → Program R) → Program R

module _ {R : Type 0} where
  abbrev pub return : R → Program R
  return r = halt (returned r)

  abbrev pub panic : Program R
  panic = halt panicked

  -- The method called with nobody else at the word. A round that would begin again then never
  -- ends, and no value comes back.
  unfoldable pub call : Program R → Method ℕ R
  call (halt o) m = (m, o)
  call restart m = (m, panicked)
  call (load k) m = call (k m) m
  call (compare_exchange_weak e n t f) m = elim (m == e) [ true ↦ call t n | false ↦ call f m ]
  call (compare_exchange e n t f) m = elim (m == e) [ true ↦ call t n | false ↦ call f m ]
  call (fetch_update u k) m = call (k m) (u m)

  -- One access of the thread; `spurious` lets a weak compare-exchange fail with no reason.
  unfoldable pub access : Program R → Program R → Bool → ℕ → Program R × ℕ
  access body (halt o) spurious m = (halt o, m)
  access body restart spurious m = (body, m)
  access body (load k) spurious m = (k m, m)
  access body (compare_exchange_weak e n t f) spurious m =
      if m == e && not spurious then (t, n) else (f, m)
  access body (compare_exchange e n t f) spurious m = if m == e then (t, n) else (f, m)
  access body (fetch_update u k) spurious m = (k m, u m)

-- What happens next at the word: an access of this thread, or any change made by another.
pub data Event : Type 0 where
  mine : Bool → Event
  theirs : ℕ → Event

module _ {R : Type 0} where
  abbrev pub logged : Program R → ℕ → ℕ → List (ℕ × ℕ) → List (ℕ × ℕ)
  logged (halt o) a b log = log
  logged _ a b log = (a, b) ∷ log

  -- The thread at `p`, under a schedule: where it ends, the word then, and the word before and
  -- after each of its accesses.
  unfoldable pub run : Program R → Program R → ℕ → List Event → Program R × ℕ × List (ℕ × ℕ)
  run body p m [] = (p, m, [])
  run body p m (theirs n ∷ es) = run body p n es
  run body p m (mine spurious ∷ es) =
      let (p', m') = access body p spurious m in
      let (q, n, log) = run body p' m' es in (q, n, logged p m m' log)
