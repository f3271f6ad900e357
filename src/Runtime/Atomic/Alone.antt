-- ===== src/Runtime/Atomic/Alone.antt =====
-- A method that nobody interferes with runs to its end.
use rust_jsi.Base.{ℕ, zero, suc, ◌≡◌, refl, true, false, ◌==◌, Bool-cases, inl, inr, List, [], ◌∷◌}
use rust_jsi.Runtime.Atomic.{
  Program, halt, restart, load, compare_exchange_weak, compare_exchange, fetch_update, call, access,
  Event, mine, run,
}

-- So many accesses, none of them a spurious failure.
abbrev pub undisturbed : ℕ → List Event
undisturbed zero = []
undisturbed (suc n) = mine false ∷ undisturbed n

module _ {R : Type 0} where
  -- From `p`, with the word at `m`, the method ends within `n` accesses of its own.
  abbrev pub EndsWithin : ℕ → Program R → ℕ → Type 0
  EndsWithin n (halt o) m = Unit
  EndsWithin zero _ m = ⊥
  EndsWithin (suc n) restart m = ⊥
  EndsWithin (suc n) (load k) m = EndsWithin n (k m) m
  EndsWithin (suc n) (compare_exchange_weak e a t f) m = elim (m == e) [
    | true ↦ EndsWithin n t a
    | false ↦ EndsWithin n f m
  ]
  EndsWithin (suc n) (compare_exchange e a t f) m = elim (m == e) [
    | true ↦ EndsWithin n t a
    | false ↦ EndsWithin n f m
  ]
  EndsWithin (suc n) (fetch_update u k) m = EndsWithin n (k m) (u m)

  -- Then running it alone gives what `call` says: the outcome, and the word it leaves.
  pub run-call :
      (body p : Program R) (n m : ℕ)
      → EndsWithin n p m
      → ((run body p m (undisturbed n)).0 ≡ halt (call p m).1)
        × ((run body p m (undisturbed n)).1 ≡ (call p m).0)
  unfolding run access call
  run-call body (halt o) zero m w = (refl, refl)
  run-call body restart zero m w = absurd w
  run-call body (load k) zero m w = absurd w
  run-call body (compare_exchange_weak e a t f) zero m w = absurd w
  run-call body (compare_exchange e a t f) zero m w = absurd w
  run-call body (fetch_update u k) zero m w = absurd w
  run-call body (halt o) (suc n) m w = run-call body (halt o) n m tt
  run-call body restart (suc n) m w = absurd w
  run-call body (load k) (suc n) m w = run-call body (k m) n m w
  run-call body (compare_exchange_weak e a t f) (suc n) m w = elim (Bool-cases (m == e)) [
    | inl win ↦ rw (win, run, access, call) (run-call body t n a (rw (win, EndsWithin) at w))
    | inr lose ↦ rw (lose, run, access, call) (run-call body f n m (rw (lose, EndsWithin) at w))
  ]
  run-call body (compare_exchange e a t f) (suc n) m w = elim (Bool-cases (m == e)) [
    | inl win ↦ rw (win, run, access, call) (run-call body t n a (rw (win, EndsWithin) at w))
    | inr lose ↦ rw (lose, run, access, call) (run-call body f n m (rw (lose, EndsWithin) at w))
  ]
  run-call body (fetch_update u k) (suc n) m w = run-call body (k m) n (u m) w
