-- ===== src/Runtime/Atomic/Linear.antt =====
-- A method that changes the word once, by its last access, is one indivisible step at that access.
use rust_jsi.Base.{
  ℕ, ◌≡◌, ◌≢◌, refl, sym, ◌∙◌, ◌⊎◌, inl, inr, Bool-cases, ◌==◌, List, [], ◌∷◌, Outcome, arith, ==→≡,
  not, ◌&&◌,
}
use rust_jsi.Runtime.Atomic.{
  Program, halt, restart, load, compare_exchange_weak, compare_exchange, fetch_update, access,
  Event, mine, theirs, run,
}

module _ {R : Type 0} where
  -- After an access that took the word from `a` to `b`, the method is over and `op` says so.
  abbrev pub Ends : (ℕ → ℕ × Outcome R) → ℕ → ℕ → Program R → Type 0
  Ends op a b p = (o : Outcome R) × (p ≡ halt o) × (op a ≡ (b, o))

  -- Every access either is the last and does what `op` does, or leaves the word alone.
  abbrev pub IsLinear : (ℕ → ℕ × Outcome R) → Program R → Type 0
  IsLinear op (halt o) = ⊥
  IsLinear op restart = Unit
  IsLinear op (load k) = (m : ℕ) → Ends op m m (k m) ⊎ IsLinear op (k m)
  IsLinear op (compare_exchange_weak e n t f) = Ends op e n t × IsLinear op f
  IsLinear op (compare_exchange e n t f) =
      Ends op e n t × ((m : ℕ) → m ≢ e → Ends op m m f ⊎ IsLinear op f)
  IsLinear op (fetch_update u k) = (m : ℕ) → Ends op m (u m) (k m)

  -- The accesses change nothing up to the last, which is `op` at the word as it is there.
  pub data Commits (op : ℕ → ℕ × Outcome R) (o : Outcome R) : List (ℕ × ℕ) → Type 0 where
    commit : {a b : ℕ} → op a ≡ (b, o) → Commits op o ((a, b) ∷ [])
    silent : {a : ℕ} {log : List (ℕ × ℕ)} → Commits op o log → Commits op o ((a, a) ∷ log)

  run_halted :
      (body : Program R) (o : Outcome R) (m : ℕ) (es : List Event)
      → ((run body (halt o) m es).0 ≡ halt o) × ((run body (halt o) m es).2 ≡ [])
  unfolding run access
  run_halted body o m [] = (refl, refl)
  run_halted body o m (theirs n ∷ es) = run_halted body o n es
  run_halted body o m (mine s ∷ es) = run_halted body o m es

  halt-injective : {o o' : Outcome R} → halt o ≡ halt o' → o ≡ o'
  halt-injective h = cc

  Ends-Commits :
      (op : ℕ → ℕ × Outcome R) (body p : Program R) (a b : ℕ) (es : List Event) (o : Outcome R)
      → Ends op a b p
      → (run body p b es).0 ≡ halt o
      → Commits op o ((a, b) ∷ (run body p b es).2)
  Ends-Commits op body p a b es o (o', e, c) h =
      let (stays, empty) = run_halted body o' b es in
      let same : o' ≡ o = halt-injective (sym stays ∙ (rw e at h)) in
      rw (e, empty) (commit (rw (← same) c))

  module _ (op : ℕ → ℕ × Outcome R) (body : Program R) (lin : IsLinear op body) where
    pub run-Commits :
        (p : Program R)
        → IsLinear op p
        → (m : ℕ) (es : List Event) (o : Outcome R) → (run body p m es).0 ≡ halt o
        → Commits op o (run body p m es).2
    unfolding run access
    run-Commits (halt o') l m es o h = absurd l
    run-Commits restart l m [] o h = cc
    run-Commits (load k) l m [] o h = cc
    run-Commits (compare_exchange_weak e n t f) l m [] o h = cc
    run-Commits (compare_exchange e n t f) l m [] o h = cc
    run-Commits (fetch_update u k) l m [] o h = cc
    run-Commits p l m (theirs n ∷ es) o h = run-Commits p l n es o h
    run-Commits restart l m (mine s ∷ es) o h = silent (run-Commits body lin m es o h)
    run-Commits (load k) l m (mine s ∷ es) o h = elim (l m) [
      | inl ends ↦ Ends-Commits op body (k m) m m es o ends h
      | inr rest ↦ silent (run-Commits (k m) rest m es o h)
    ]
    run-Commits (compare_exchange_weak e n t f) l m (mine s ∷ es) o h =
        elim (Bool-cases (m == e && not s)) [
          | inl win ↦
              let same : m ≡ e = ==→≡ m e (ground arith) in
              rw win (rw same (Ends-Commits op body t e n es o l.0 (rw win at h)))
          | inr lose ↦ rw lose (silent (run-Commits f l.1 m es o (rw lose at h)))
        ]
    run-Commits (compare_exchange e n t f) l m (mine s ∷ es) o h = elim (Bool-cases (m == e)) [
      | inl win ↦
          let same : m ≡ e = ==→≡ m e win in
          rw win (rw same (Ends-Commits op body t e n es o l.0 (rw win at h)))
      | inr lose ↦ rw lose (elim (l.1 m (ground arith)) [
        | inl ends ↦ Ends-Commits op body f m m es o ends (rw lose at h)
        | inr rest ↦ silent (run-Commits f rest m es o (rw lose at h))
      ])
    ]
    run-Commits (fetch_update u k) l m (mine s ∷ es) o h =
        Ends-Commits op body (k m) m (u m) es o (l m) h
