-- ===== src/Jsc/Scope/Laws.antt =====
-- backend-jsc/src/experimental/common.rs: protections and local roots through any use of a scope.
use rust_jsi.Base.{
  ℕ, ◌+◌, ◌-◌, ◌≤◌, ◌≡◌, ◌⊎◌, inl, inr, refl, ap, ◌∙◌, Bool, List, [], ◌∷◌, length, length-append,
  Option, none, some, Result, ok, err, Outcome, returned, panicked, Method, arith,
}
use rust_jsi.Host.Identity.{u64_max}
use rust_jsi.Backend.Errors.{BackendError, failure}
use rust_jsi.Jsc.Errors.{RuntimeError, local_root_limit_reached, map_runtime_error}
use rust_jsi.Jsc.Budget.{LocalBudget, Reservation}
use rust_jsi.Jsc.Budget
use rust_jsi.Jsc.Generations.{count, count-append}
use rust_jsi.Jsc.LocalRoots
use rust_jsi.Jsc.LocalRoots.{LocalRoots}
use rust_jsi.Jsc.LocalRoots.Laws.{IsValid, push-drain}
use rust_jsi.Jsc.Roots.Invariant.{IsSound}
use rust_jsi.Jsc.Roots.Evolution.{holds}
use rust_jsi.Jsc.Scope.{
  JscScope, JscValue, with_budget, value, root_nonnull, rooted_ok, rooted, refuse, reserved,
  made_string, string,
}

pub reserve-cases :
    (b : LocalBudget)
    → ((Budget.reserve b ≡ (b, err local_root_limit_reached))
        × ((b.limit ≤ b.used) ⊎ (u64_max ≤ b.used)))
      ⊎ ((Budget.reserve b ≡ (record b { used = b.used + 1 }, ok (record { held = 1 })))
          × (b.used + 1 ≤ b.limit))
unfolding Budget.reserve
reserve-cases b = ground arith

module _ {V : Type 0} where
  -- The budget counts the scope's local roots beside what others hold; the protections not yet
  -- undone are those of the persistent and of the local roots.
  pub record IsBalanced (base : ℕ) (self : JscScope V) : Type 0 where
    pub sound : IsSound self.shared.roots
    pub valid : IsValid self.roots
    pub counted : self.shared.local_budget.used ≡ base + length (LocalRoots.drain self.roots).1
    pub within : self.shared.local_budget.used ≤ self.shared.local_budget.limit
    pub protections :
        (p : V → Bool)
        → count p self.shared.protected
          ≡ count p self.shared.unprotected
            + count (holds p) self.shared.roots.slots
            + count p (LocalRoots.drain self.roots).1

  abbrev pub reserved_scope : JscScope V → JscScope V
  reserved_scope self =
      with_budget (record self.shared.local_budget { used = self.shared.local_budget.used + 1 })
        self

  abbrev pub rooted_scope : V → JscScope V → JscScope V
  rooted_scope raw self = record self {
    shared = record self.shared { protected = raw ∷ self.shared.protected };
    roots = LocalRoots.push raw self.roots;
  }

  pub root_nonnull-eq :
      (raw : V) (r : Reservation) (self : JscScope V)
      → root_nonnull raw r self ≡ (rooted_scope raw self, returned (value raw self))
  unfolding root_nonnull Budget.commit
  root_nonnull-eq raw r self = refl

  pub rooted-IsBalanced :
      (base : ℕ) (raw : V) (self : JscScope V)
      → IsBalanced base self
      → self.shared.local_budget.used + 1 ≤ self.shared.local_budget.limit
      → IsBalanced base (rooted_scope raw (reserved_scope self))
  rooted-IsBalanced base raw self b room =
      let (e, v) = push-drain raw self.roots b.valid in
      record {
        sound = b.sound;
        valid = v;
        counted = omega (
          arith,
          b.counted,
          ap (λ (l : List V). length l) e,
          length-append (LocalRoots.drain self.roots).1 (raw ∷ []),
        );
        within = room;
        protections = λ p. omega (
          arith,
          b.protections p,
          ap (λ (l : List V). count p l) e,
          count-append p (LocalRoots.drain self.roots).1 (raw ∷ []),
        );
      }

  -- A method that returns and leaves a balanced scope.
  abbrev pub Goes : {A : Type 0} → ℕ → JscScope V → JscScope V × Outcome A → Type 0
  Goes {A} base self r = (s : JscScope V) × (o : A) × (r ≡ (s, returned o)) × IsBalanced base s

  pub refused-Goes :
      {A : Type 0} (base : ℕ) (e : BackendError) (self : JscScope V)
      → IsBalanced base self
      → Goes base self (refuse {A = A} e (record { held = 1 }) (reserved_scope self))
  unfolding Budget.drop_reservation
  refused-Goes base e self b = (
    with_budget (record self.shared.local_budget { used = self.shared.local_budget.used + 1 - 1 })
        self,
    err e,
    ground arith,
    record {
      sound = b.sound;
      valid = b.valid;
      counted = omega (arith, b.counted);
      within = omega (arith, b.within);
      protections = b.protections;
    },
  )

  abbrev ok_value :
      JscScope V × Outcome (JscValue V) → JscScope V × Outcome (Result (JscValue V) BackendError)
  ok_value (s, returned v) = (s, returned (ok v))
  ok_value (s, panicked) = (s, panicked)

  pub rooted_ok-Goes :
      (base : ℕ) (raw : V) (self : JscScope V)
      → IsBalanced base self
      → self.shared.local_budget.used + 1 ≤ self.shared.local_budget.limit
      → Goes base self (rooted_ok raw (record { held = 1 }) (reserved_scope self))
  unfolding rooted_ok root_nonnull
  rooted_ok-Goes base raw self b room = (
    rooted_scope raw (reserved_scope self),
    ok (value raw self),
    ap (λ (r : JscScope V × Outcome (JscValue V)). ok_value r)
        (root_nonnull-eq raw (record { held = 1 }) (reserved_scope self)),
    rooted-IsBalanced base raw self b room,
  )

  pub made_string-Goes :
      (base : ℕ) (made : Result (Option V) BackendError) (self : JscScope V)
      → IsBalanced base self
      → self.shared.local_budget.used + 1 ≤ self.shared.local_budget.limit
      → Goes base self (made_string made (record { held = 1 }) (reserved_scope self))
  unfolding made_string rooted
  made_string-Goes base (err e) self b room = refused-Goes base e self b
  made_string-Goes base (ok none) self b room =
      refused-Goes base (failure "JavaScriptCore returned a null value") self b
  made_string-Goes base (ok (some raw)) self b room = rooted_ok-Goes base raw self b room

  -- The two ends of a reservation.
  pub reserved-Goes :
      {A : Type 0} (base : ℕ) (next : Reservation → Method (JscScope V) (Result A BackendError))
      (self : JscScope V)
      → IsBalanced base self
      → ((self.shared.local_budget.used + 1 ≤ self.shared.local_budget.limit)
          → Goes base self (next (record { held = 1 }) (reserved_scope self)))
      → Goes base self (reserved next (Budget.reserve self.shared.local_budget) self)
  reserved-Goes base next self b go = elim (reserve-cases self.shared.local_budget) [
    | inl (e, full) ↦ (
      self,
      err (map_runtime_error local_root_limit_reached),
      ap (λ (r : LocalBudget × Result Reservation RuntimeError). reserved next r self) e,
      b,
    )
    | inr (e, room) ↦
        let (s, o, f, b') = go room in
        (
          s,
          o,
          ap (λ (r : LocalBudget × Result Reservation RuntimeError). reserved next r self) e ∙ f,
          b',
        )
  ]

  pub string-Goes :
      (base : ℕ) (made : Result (Option V) BackendError) (self : JscScope V)
      → IsBalanced base self
      → Goes base self (string made self)
  unfolding string
  string-Goes base made self b =
      reserved-Goes base (made_string made) self b (made_string-Goes base made self b)
